-- ===== src/Prelude/Futures.antt =====
-- A future, by what its polls answer: it is pending some times and then ready, or pending for ever.
-- No code polls a future again that has been ready.
use Prim.Native.Nat.{ℕ, zero, suc}
use mathlib.Core.Path.{◌≡◌, refl, sym, ap, ◌∙◌}
use actix_net.Prelude.Outcomes.{Poll, pending, ready, Result, ok, err}

pub data Fut {ℓ} (A : Type ℓ) : Type ℓ where
  resolved : A → Fut A
  later : Fut A → Fut A
  never : Fut A

-- One poll: what is left of the future, and the answer.
abbrev pub poll_fut {ℓ} : {A : Type ℓ} → Fut A → Fut A × Poll A
poll_fut (resolved a) = (resolved a, ready a)
poll_fut (later f) = (f, pending)
poll_fut never = (never, pending)

-- A future that is pending a number of times.
abbrev pub after_polls {ℓ} : {C : Type ℓ} → ℕ → C → Fut C
after_polls zero c = resolved c
after_polls (suc i) c = later (after_polls i c)

-- A future that is awaited before another.
abbrev pub then_fut {ℓ κ} : {A : Type ℓ} {B : Type κ} → Fut A → (A → Fut B) → Fut B
then_fut (resolved a) k = k a
then_fut (later f) k = later (then_fut f k)
then_fut never k = never

-- The same with `?`: an error ends the second future at once.
abbrev pub or_fail {ℓ κ ι} :
    {E : Type ι} {A : Type ℓ} {B : Type κ} → (A → Fut (Result E B)) → Result E A → Fut (Result E B)
or_fail k (ok a) = k a
or_fail k (err e) = resolved (err e)

abbrev pub try_fut {ℓ κ ι} :
    {E : Type ι} {A : Type ℓ} {B : Type κ}
    → Fut (Result E A)
    → (A → Fut (Result E B))
    → Fut (Result E B)
try_fut f k = then_fut f (or_fail k)

pub then_fut-then_fut {ℓ κ ι} :
    {A : Type ℓ} {B : Type κ} {C : Type ι} (f : Fut A) (k : A → Fut B) (l : B → Fut C)
    → then_fut (then_fut f k) l ≡ then_fut f (λ a. then_fut (k a) l)
then_fut-then_fut (resolved a) k l = refl
then_fut-then_fut (later f) k l = ap later (then_fut-then_fut f k l)
then_fut-then_fut never k l = refl

pub then_fut_ext {ℓ κ} :
    {A : Type ℓ} {B : Type κ} (f : Fut A) (k l : A → Fut B)
    → ((a : A) → k a ≡ l a)
    → then_fut f k ≡ then_fut f l
then_fut_ext (resolved a) k l h = h a
then_fut_ext (later f) k l h = ap later (then_fut_ext f k l h)
then_fut_ext never k l h = refl

pub then_fut-mapped {ℓ κ ι} :
    {A : Type ℓ} {B : Type κ} {C : Type ι} (f : Fut A) (h : A → B) (k : B → Fut C) (g : A → C)
    → ((a : A) → resolved (g a) ≡ k (h a))
    → then_fut f (λ a. resolved (g a)) ≡ then_fut (then_fut f λ a. resolved (h a)) k
then_fut-mapped f h k g e =
    then_fut_ext f (λ a. resolved (g a)) (λ a. k (h a)) e
    ∙ sym (then_fut-then_fut f (λ a. resolved (h a)) k)

or_fail-then_fut {ℓ κ ι θ} :
    {E : Type ι} {A : Type ℓ} {B : Type κ} {C : Type θ} (k : A → Fut (Result E B))
    (l : B → Fut (Result E C)) (r : Result E A)
    → then_fut (or_fail k r) (or_fail l) ≡ or_fail (λ a. try_fut (k a) l) r
or_fail-then_fut k l (ok a) = refl
or_fail-then_fut k l (err e) = refl

pub try_fut-try_fut {ℓ κ ι θ} :
    {E : Type ι} {A : Type ℓ} {B : Type κ} {C : Type θ} (f : Fut (Result E A))
    (k : A → Fut (Result E B)) (l : B → Fut (Result E C))
    → try_fut (try_fut f k) l ≡ try_fut f (λ a. try_fut (k a) l)
try_fut-try_fut f k l =
    then_fut-then_fut f (or_fail k) (or_fail l) ∙ then_fut_ext f _ _ (or_fail-then_fut k l)
