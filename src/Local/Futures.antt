-- ===== src/Local/Futures.antt =====
-- actix-utils/src/future: a future that is one of two, a future of a function, and one that is ready.
use actix_net.Prelude.{
  ℕ, zero, suc, ◌≡◌, refl, Option, none, some, Poll, pending, ready, Result, ok, err,
}
use actix_net.Prelude.Panics.{Outcome, done, panicked, out_of_fuel, ◌>>=◌}
use actix_net.Prelude.Tasks.{run, after_poll}

-- `Either`.
pub data Either {ℓ κ} (L : Type ℓ) (R : Type κ) : Type (ℓ ⊔ κ) where
  left : L → Either L R
  right : R → Either L R

-- `Either::into_inner`.
unfoldable pub into_inner {ℓ} : {T : Type ℓ} → Either T T → T
into_inner (left value) = value
into_inner (right value) = value

module _ {ℓ κ} {L R : Type ℓ} {T : Type κ} (poll_left : L → Outcome (L × Poll T))
    (poll_right : R → Outcome (R × Poll T)) where
  abbrev pub to_left : Outcome (L × Poll T) → Outcome (Either L R × Poll T)
  to_left (done (l, answer)) = done (left l, answer)
  to_left panicked = panicked
  to_left out_of_fuel = out_of_fuel

  abbrev pub to_right : Outcome (R × Poll T) → Outcome (Either L R × Poll T)
  to_right (done (r, answer)) = done (right r, answer)
  to_right panicked = panicked
  to_right out_of_fuel = out_of_fuel

  -- `Either::poll`.
  unfoldable pub poll_either : Either L R → Outcome (Either L R × Poll T)
  poll_either (left value) = to_left (poll_left value)
  poll_either (right value) = to_right (poll_right value)

  left_step :
      (n : ℕ) (o : Outcome (L × Poll T))
      → ((l : L) → run poll_either n (left l) ≡ run poll_left n l)
      → (to_left o >>= after_poll poll_either (λ s. run poll_either n s))
        ≡ (o >>= after_poll poll_left (λ l. run poll_left n l))
  left_step n (done (l, pending)) h = h l
  left_step n (done (l, ready t)) h = refl
  left_step n panicked h = refl
  left_step n out_of_fuel h = refl

  right_step :
      (n : ℕ) (o : Outcome (R × Poll T))
      → ((r : R) → run poll_either n (right r) ≡ run poll_right n r)
      → (to_right o >>= after_poll poll_either (λ s. run poll_either n s))
        ≡ (o >>= after_poll poll_right (λ r. run poll_right n r))
  right_step n (done (r, pending)) h = h r
  right_step n (done (r, ready t)) h = refl
  right_step n panicked h = refl
  right_step n out_of_fuel h = refl

  -- Polls of either future answer as those of the future that it holds.
  pub run-left : (n : ℕ) (l : L) → run poll_either n (left l) ≡ run poll_left n l
  unfolding poll_either
  run-left zero l = refl
  run-left (suc n) l = left_step n (poll_left l) (λ l'. run-left n l')

  pub run-right : (n : ℕ) (r : R) → run poll_either n (right r) ≡ run poll_right n r
  unfolding poll_either
  run-right zero r = refl
  run-right (suc n) r = right_step n (poll_right r) (λ r'. run-right n r')

-- `PollFn::poll`: the function is polled, with its state.
unfoldable pub poll_fn {ℓ κ} :
    {S : Type ℓ} {T : Type κ} → (S → S × Poll T) → S → Outcome (S × Poll T)
poll_fn f s = done (f s)

-- `Ready`.
pub record Ready {ℓ} (T : Type ℓ) : Type ℓ where
  pub val : Option T

-- `ready`, `ok` and `err`.
unfoldable pub ready_of {ℓ} : {T : Type ℓ} → T → Ready T
ready_of val = record { val = some val }

unfoldable pub ok_of {ℓ κ} : {E : Type κ} {T : Type ℓ} → T → Ready (Result E T)
ok_of val = record { val = some (ok val) }

unfoldable pub err_of {ℓ κ} : {E : Type κ} {T : Type ℓ} → E → Ready (Result E T)
err_of e = record { val = some (err e) }

abbrev pub taken {ℓ} : {T : Type ℓ} → Option T → Outcome (Ready T × Poll T)
taken none = panicked
taken (some val) = done (record { val = none }, ready val)

-- `Ready::poll`, which panics after it has been ready.
unfoldable pub poll_ready_fut {ℓ} : {T : Type ℓ} → Ready T → Outcome (Ready T × Poll T)
poll_ready_fut r = taken r.val

abbrev pub unwrapped {ℓ} : {T : Type ℓ} → Option T → Outcome T
unwrapped none = panicked
unwrapped (some val) = done val

-- `Ready::into_inner`.
unfoldable pub ready_into_inner {ℓ} : {T : Type ℓ} → Ready T → Outcome T
ready_into_inner r = unwrapped r.val

-- A first poll is ready with the value, and a second one panics.
pub poll_ready_fut-twice {ℓ} :
    {T : Type ℓ} (v : T)
    → (r : Ready T) × (poll_ready_fut (ready_of v) ≡ done (r, ready v))
      × (poll_ready_fut r ≡ panicked)
unfolding poll_ready_fut ready_of
poll_ready_fut-twice v = (record { val = none }, refl, refl)
