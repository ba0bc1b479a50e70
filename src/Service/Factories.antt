-- ===== src/Service/Factories.antt =====
-- The future of a factory of two chained services (actix-service/src/and_then.rs and then.rs, which
-- have the same code): both services are created at the same time.
use actix_net.Prelude.{
  ℕ, zero, suc, ◌≡◌, refl, sym, ap, ◌∙◌, min, max, leb, true, false, Option, none, some, Result, ok,
  err, Poll, pending, ready, if◌then◌else◌, arith,
}
use actix_net.Prelude.Panics.{Outcome, done}
use actix_net.Prelude.Futures.{Fut, resolved, poll_fut, after_polls}
use actix_net.Prelude.Tasks.{run, await}

pub record FactoryResponse {ℓ} (A B E : Type ℓ) : Type ℓ where
  pub fut_a : Fut (Result E A)
  pub fut_b : Fut (Result E B)
  pub a : Option A
  pub b : Option B

-- `AndThenServiceFactoryResponse::new`.
unfoldable pub new_response {ℓ} :
    {A B E : Type ℓ} → Fut (Result E A) → Fut (Result E B) → FactoryResponse A B E
new_response fut_a fut_b = record { fut_a = fut_a; fut_b = fut_b; a = none; b = none }

-- One service's turn in a poll: its future is polled unless the service is there.
abbrev pub created_now {ℓ κ} :
    {A : Type ℓ} {E : Type κ}
    → Fut (Result E A) × Poll (Result E A)
    → Fut (Result E A) × Result E (Option A)
created_now (fut, pending) = (fut, ok none)
created_now (fut, ready (ok s)) = (fut, ok (some s))
created_now (fut, ready (err e)) = (fut, err e)

abbrev pub turn {ℓ κ} :
    {A : Type ℓ} {E : Type κ} → Option A → Fut (Result E A) → Fut (Result E A) × Result E (Option A)
turn (some s) fut = (fut, ok (some s))
turn none fut = created_now (poll_fut fut)

module _ {ℓ} {A B E : Type ℓ} where
  -- The end of a poll.
  abbrev pub both_created :
      FactoryResponse A B E
      → Option A
      → Option B
      → Outcome (FactoryResponse A B E × Poll (Result E (A × B)))
  both_created r (some a) (some b) = done (record r { a = none; b = none }, ready (ok (a, b)))
  both_created r (some a) none = done (r, pending)
  both_created r none b = done (r, pending)

  abbrev pub after_b :
      FactoryResponse A B E
      → Fut (Result E B) × Result E (Option B)
      → Outcome (FactoryResponse A B E × Poll (Result E (A × B)))
  after_b r (fut_b, err e) = done (record r { fut_b = fut_b }, ready (err e))
  after_b r (fut_b, ok b) =
      let r' : FactoryResponse A B E = record r { fut_b = fut_b; b = b } in both_created r' r.a b

  abbrev pub after_a :
      FactoryResponse A B E
      → Fut (Result E A) × Result E (Option A)
      → Outcome (FactoryResponse A B E × Poll (Result E (A × B)))
  after_a r (fut_a, err e) = done (record r { fut_a = fut_a }, ready (err e))
  after_a r (fut_a, ok a) =
      let r' : FactoryResponse A B E = record r { fut_a = fut_a; a = a } in
      after_b r' (turn r.b r.fut_b)

  -- `AndThenServiceFactoryResponse::poll`.
  unfoldable pub poll_factory :
      FactoryResponse A B E → Outcome (FactoryResponse A B E × Poll (Result E (A × B)))
  poll_factory r = after_a r (turn r.a r.fut_a)

  -- When the services come after `i` and `j` pending polls: both of them with the later one, or the
  -- first error.
  abbrev pub joined : ℕ → ℕ → Result E A → Result E B → Fut (Result E (A × B))
  joined i j (ok a) (ok b) = after_polls (max i j) (ok (a, b))
  joined i j (err e) (ok b) = after_polls i (err e)
  joined i j (ok a) (err e) = after_polls j (err e)
  joined i j (err e) (err f) = after_polls (min i j) (err (if leb i j then e else f))

  -- The first service is there.
  run-created_a :
      (n j : ℕ) (a : A) (fut : Fut (Result E A)) (rb : Result E B)
      → run poll_factory n (record { fut_a = fut; fut_b = after_polls j rb; a = some a; b = none })
        ≡ done (await n (joined 0 j (ok a) rb))
  unfolding poll_factory
  run-created_a zero j a fut (ok b) = refl
  run-created_a zero j a fut (err e) = refl
  run-created_a (suc n) zero a fut (ok b) = refl
  run-created_a (suc n) zero a fut (err e) = refl
  run-created_a (suc n) (suc j) a fut (ok b) =
      let same : max 0 (suc j) ≡ suc (max 0 j) = omega arith in
      rw same (run-created_a n j a fut (ok b))
  run-created_a (suc n) (suc j) a fut (err e) = run-created_a n j a fut (err e)

  -- The second service is there.
  run-created_b :
      (n i : ℕ) (b : B) (fut : Fut (Result E B)) (ra : Result E A)
      → run poll_factory n (record { fut_a = after_polls i ra; fut_b = fut; a = none; b = some b })
        ≡ done (await n (joined i 0 ra (ok b)))
  unfolding poll_factory
  run-created_b zero i b fut (ok a) = refl
  run-created_b zero i b fut (err e) = refl
  run-created_b (suc n) zero b fut (ok a) = refl
  run-created_b (suc n) zero b fut (err e) = refl
  run-created_b (suc n) (suc i) b fut (ok a) =
      let same : max (suc i) 0 ≡ suc (max i 0) = omega arith in
      rw same (run-created_b n i b fut (ok a))
  run-created_b (suc n) (suc i) b fut (err e) = run-created_b n i b fut (err e)

  joined-suc :
      (n i j : ℕ) (ra : Result E A) (rb : Result E B)
      → await (suc n) (joined (suc i) (suc j) ra rb) ≡ await n (joined i j ra rb)
  joined-suc n i j (ok a) (ok b) =
      let same : max (suc i) (suc j) ≡ suc (max i j) = omega arith in rw same refl
  joined-suc n i j (err e) (ok b) = refl
  joined-suc n i j (ok a) (err e) = refl
  joined-suc n i j (err e) (err f) =
      let same : min (suc i) (suc j) ≡ suc (min i j) = omega arith in
      let test : leb (suc i) (suc j) ≡ leb i j = ground arith in rw (same, test) refl

  -- Polls of the factory's future, when the first service's future is pending `i` times and the second
  -- one's `j` times: it is ready at the later of the two with both services, or at the first error,
  -- the first service's when both come at once.
  pub run-joined :
      (n i j : ℕ) (ra : Result E A) (rb : Result E B)
      → run poll_factory n (new_response (after_polls i ra) (after_polls j rb))
        ≡ done (await n (joined i j ra rb))
  unfolding poll_factory new_response
  run-joined zero i j ra rb = refl
  run-joined (suc n) zero zero (ok a) (ok b) = refl
  run-joined (suc n) zero zero (ok a) (err f) = refl
  run-joined (suc n) zero zero (err e) (ok b) = refl
  run-joined (suc n) zero zero (err e) (err f) = refl
  run-joined (suc n) zero (suc j) (ok a) (ok b) =
      let same : max 0 (suc j) ≡ suc (max 0 j) = omega arith in
      rw same (run-created_a n j a (resolved (ok a)) (ok b))
  run-joined (suc n) zero (suc j) (ok a) (err f) = run-created_a n j a (resolved (ok a)) (err f)
  run-joined (suc n) zero (suc j) (err e) (ok b) = refl
  run-joined (suc n) zero (suc j) (err e) (err f) =
      let test : leb 0 (suc j) ≡ true = ground arith in
      let least : min 0 (suc j) ≡ 0 = omega arith in rw (test, least) refl
  run-joined (suc n) (suc i) zero (ok a) (ok b) =
      let same : max (suc i) 0 ≡ suc (max i 0) = omega arith in
      rw same (run-created_b n i b (resolved (ok b)) (ok a))
  run-joined (suc n) (suc i) zero (ok a) (err f) = refl
  run-joined (suc n) (suc i) zero (err e) (ok b) = run-created_b n i b (resolved (ok b)) (err e)
  run-joined (suc n) (suc i) zero (err e) (err f) =
      let test : leb (suc i) 0 ≡ false = ground arith in
      let least : min (suc i) 0 ≡ 0 = omega arith in rw (test, least) refl
  run-joined (suc n) (suc i) (suc j) ra rb =
      run-joined n i j ra rb ∙ ap done (sym (joined-suc n i j ra rb))
