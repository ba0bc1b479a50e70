-- ===== src/Prelude/Tasks.antt =====
-- A state machine that is polled, and when it does what a future does.
use mathlib.Core.Path.{◌≡◌, refl, ap, ◌∙◌, subst}
use mathlib.Core.Option.{Option, none, some}
use Prim.Native.Nat.{ℕ, zero, suc}
use actix_net.Prelude.Outcomes.{Poll, pending, ready}
use actix_net.Prelude.Panics.{Outcome, done, ◌>>=◌}
use actix_net.Prelude.Futures.{Fut, resolved, later, never, then_fut}

-- Up to a number of polls of a future: its value, if it has been ready.
abbrev pub await {ℓ} : {A : Type ℓ} → ℕ → Fut A → Option A
await zero f = none
await (suc n) (resolved a) = some a
await (suc n) (later f) = await n f
await (suc n) never = none

pub await-never {ℓ} : {A : Type ℓ} (n : ℕ) → await {A = A} n never ≡ none
await-never zero = refl
await-never (suc n) = refl

module _ {ℓ κ} {S : Type ℓ} {A : Type κ} (poll : S → Outcome (S × Poll A)) where
  abbrev pub after_poll : (S → Outcome (Option A)) → S × Poll A → Outcome (Option A)
  after_poll again (s, pending) = again s
  after_poll again (s, ready a) = done (some a)

  -- The same polls of a state machine.
  abbrev pub run : ℕ → S → Outcome (Option A)
  run zero s = done none
  run (suc n) s = poll s >>= after_poll (λ s'. run n s')

-- A state may be worth a future, which says what polls of it answer.
module _ {ℓ κ} {S : Type ℓ} {A : Type κ} (poll : S → Outcome (S × Poll A))
    (worth : S → Option (Fut A)) where
  -- One poll of a state answers as the future does, and leads to a state that is worth the rest.
  abbrev pub Steps : Outcome (S × Poll A) → Option (Fut A) → Type (ℓ ⊔ κ)
  Steps o none = Unit
  Steps o (some (resolved a)) = (s : S) × (o ≡ done (s, ready a))
  Steps o (some (later f)) = (s : S) × (o ≡ done (s, pending)) × (worth s ≡ some f)
  Steps o (some never) = (s : S) × (o ≡ done (s, pending)) × (worth s ≡ some never)

module _ {ℓ κ} {S : Type ℓ} {A : Type κ} (poll : S → Outcome (S × Poll A))
    (R : S → Fut A → Type (ℓ ⊔ κ)) where
  -- The same with a relation in place of the worth.
  abbrev pub Answers : Outcome (S × Poll A) → Fut A → Type (ℓ ⊔ κ)
  Answers o (resolved a) = (s : S) × (o ≡ done (s, ready a))
  Answers o (later f) = (s : S) × (o ≡ done (s, pending)) × R s f
  Answers o never = (s : S) × (o ≡ done (s, pending)) × R s never

  pub run_step :
      (n : ℕ)
      → ((s : S) (f : Fut A) → R s f → run poll n s ≡ done (await n f))
      → (o : Outcome (S × Poll A)) (f : Fut A) → Answers o f
      → (o >>= after_poll poll (λ s'. run poll n s')) ≡ done (await (suc n) f)
  run_step n rest o (resolved a) (s', e) = rw e refl
  run_step n rest o (later g) (s', e, r) = rw e (rest s' g r)
  run_step n rest o never (s', e, r) = rw e (rest s' never r ∙ ap done (await-never n))

  pub run-await :
      ((s : S) (f : Fut A) → R s f → Answers (poll s) f)
      → (n : ℕ) (s : S) (f : Fut A) → R s f
      → run poll n s ≡ done (await n f)
  run-await step zero s f r = refl
  run-await step (suc n) s f r =
      run_step n (λ s' g r'. run-await step n s' g r') (poll s) f (step s f r)

-- The same by the worth of the states, each of which is kept by a poll.
module _ {ℓ} {S A : Type ℓ} (poll : S → Outcome (S × Poll A)) (worth : S → Option (Fut A)) where
  Steps-Answers :
      (o : Outcome (S × Poll A)) (f : Fut A)
      → Steps poll worth o (some f)
      → Answers poll (λ s g. worth s ≡ some g) o f
  Steps-Answers o (resolved a) h = h
  Steps-Answers o (later f) h = h
  Steps-Answers o never h = h

  pub run-worth :
      ((s : S) → Steps poll worth (poll s) (worth s))
      → (n : ℕ) (s : S) (f : Fut A) → worth s ≡ some f
      → run poll n s ≡ done (await n f)
  run-worth step =
      run-await poll (λ s g. worth s ≡ some g)
        (λ s g w. Steps-Answers (poll s) g (subst (λ o. Steps poll worth (poll s) o) w (step s)))

-- A state machine that passes a future's answer on, changed by a function.
module _ {ℓ κ ι} {S : Type ℓ} {A : Type κ} {B : Type ι} (poll : S → Outcome (S × Poll B))
    (g : A → B) (held : Fut A → S) where
  abbrev pub Passes : Outcome (S × Poll B) → Fut A → Type (ℓ ⊔ ι)
  Passes o (resolved a) = (s : S) × (o ≡ done (s, ready (g a)))
  Passes o (later f) = o ≡ done (held f, pending)
  Passes o never = o ≡ done (held never, pending)

  step-Passes :
      (n : ℕ)
      → ((f : Fut A) → run poll n (held f) ≡ done (await n (then_fut f λ a. resolved (g a))))
      → (o : Outcome (S × Poll B)) (f : Fut A) → Passes o f
      → (o >>= after_poll poll (λ s'. run poll n s'))
        ≡ done (await (suc n) (then_fut f λ a. resolved (g a)))
  step-Passes n rest o (resolved a) (s', e) = rw e refl
  step-Passes n rest o (later f) e = rw e (rest f)
  step-Passes n rest o never e = rw e (rest never ∙ ap done (await-never n))

  pub run-Passes :
      ((f : Fut A) → Passes (poll (held f)) f)
      → (n : ℕ) (f : Fut A) → run poll n (held f) ≡ done (await n (then_fut f λ a. resolved (g a)))
  run-Passes h zero f = refl
  run-Passes h (suc n) f = step-Passes n (λ f'. run-Passes h n f') (poll (held f)) f (h f)
