-- ===== src/Service/Readiness.antt =====
-- The readiness of two chained services (actix-service/src/and_then.rs and then.rs, which have the
-- same code).
use actix_net.Prelude.{Bool, true, false, Result, ok, err, Poll, pending, ready}
use actix_net.Service.{Service}

module _ {ℓ} {S T Req A B Req' E : Type ℓ} (a : Service S Req A E) (b : Service T Req' B E) where
  abbrev pub Ready : Type ℓ
  Ready = Poll (Result E (Unit {0}))

  -- After the first service's answer, which was no error.
  abbrev pub ready_second : Bool → S → T × Ready → (S × T) × Ready
  ready_second not_ready s (t, ready (err e)) = ((s, t), ready (err e))
  ready_second not_ready s (t, pending) = ((s, t), pending)
  ready_second true s (t, ready (ok x)) = ((s, t), pending)
  ready_second false s (t, ready (ok x)) = ((s, t), ready (ok tt))

  abbrev pub ready_first : T → S × Ready → (S × T) × Ready
  ready_first t (s, ready (err e)) = ((s, t), ready (err e))
  ready_first t (s, pending) = ready_second true s (b.poll_ready t)
  ready_first t (s, ready (ok x)) = ready_second false s (b.poll_ready t)

  -- `AndThenService::poll_ready`.
  unfoldable pub poll_ready_both : S × T → (S × T) × Ready
  poll_ready_both (s, t) = ready_first t (a.poll_ready s)
