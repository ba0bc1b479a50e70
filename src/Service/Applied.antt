-- ===== src/Service/Applied.antt =====
-- actix-service/src/apply.rs, apply_cfg.rs and transform.rs: a function or a transform that is applied
-- to a service, or to a service that a factory creates first.
pub mod Configured
pub mod Transformed
use actix_net.Prelude.{ℕ, ◌≡◌, refl, Option, none, some, Result, ok, err, Poll, pending, ready}
use actix_net.Prelude.Panics.{Outcome, done, panicked}
use actix_net.Prelude.Futures.{Fut, resolved, later, never, poll_fut, then_fut}
use actix_net.Prelude.Tasks.{run, await, Passes, run-Passes}
use actix_net.Service.{Service, ServiceFactory}
use actix_net.Service.Maps.{map_ok}
use actix_net.Service.Creation.{Taking, WithFunction}

-- `wrap_fn` takes the service by a reference, so it may change the service's state.
abbrev pub WrapFn {ℓ} : (S Req B E : Type ℓ) → Type ℓ
WrapFn S Req B E = Req → S → S × Fut (Result E B)

pub record Apply {ℓ} (S Req B E : Type ℓ) : Type ℓ where
  pub service : S
  pub wrap_fn : WrapFn S Req B E

module _ {ℓ} {S Req B E : Type ℓ} where
  -- `Apply::new`.
  abbrev pub new_apply : S → WrapFn S Req B E → Apply S Req B E
  new_apply service wrap_fn = record { service = service; wrap_fn = wrap_fn }

  -- `Apply::poll_ready` and `Apply::call`.
  unfoldable pub poll_ready_apply :
      {In A : Type ℓ}
      → Service S In A E
      → Apply S Req B E
      → Apply S Req B E × Poll (Result E (Unit {0}))
  poll_ready_apply a m =
      let (s, answer) = a.poll_ready m.service in (record m { service = s }, answer)

  unfoldable pub call_apply : Apply S Req B E → Req → Apply S Req B E × Fut (Result E B)
  call_apply m req = let (s, fut) = m.wrap_fn req m.service in (record m { service = s }, fut)

module _ {ℓ} {S Req B E I : Type ℓ} where
  abbrev pub wrap_apply :
      Fut (Result I S)
      → S
      → Option (WrapFn S Req B E)
      → Outcome (Taking (WrapFn S Req B E) (Result I S) × Poll (Result I (Apply S Req B E)))
  wrap_apply fut svc none = panicked
  wrap_apply fut svc (some f) = done (record { fut = fut; f = none }, ready (ok (new_apply svc f)))

  abbrev pub on_apply_service :
      Option (WrapFn S Req B E)
      → Fut (Result I S) × Poll (Result I S)
      → Outcome (Taking (WrapFn S Req B E) (Result I S) × Poll (Result I (Apply S Req B E)))
  on_apply_service f (fut, pending) = done (record { fut = fut; f = f }, pending)
  on_apply_service f (fut, ready (err e)) = done (record { fut = fut; f = f }, ready (err e))
  on_apply_service f (fut, ready (ok svc)) = wrap_apply fut svc f

  -- `ApplyServiceFactoryResponse::poll`.
  unfoldable pub poll_apply_service :
      Taking (WrapFn S Req B E) (Result I S)
      → Outcome (Taking (WrapFn S Req B E) (Result I S) × Poll (Result I (Apply S Req B E)))
  poll_apply_service m = on_apply_service m.f (poll_fut m.fut)

  poll_apply_service-Passes :
      (f : WrapFn S Req B E) (fut : Fut (Result I S))
      → Passes poll_apply_service
          (map_ok λ svc. new_apply svc f)
          (λ g. record { fut = g; f = some f })
          (poll_apply_service (record { fut = fut; f = some f }))
          fut
  unfolding poll_apply_service
  poll_apply_service-Passes f (resolved (ok svc)) = (_, refl)
  poll_apply_service-Passes f (resolved (err e)) = (_, refl)
  poll_apply_service-Passes f (later fut) = refl
  poll_apply_service-Passes f never = refl

  module _ {Cfg : Type ℓ} where
    -- `ApplyFactory::new_service`.
    unfoldable pub new_apply_service :
        WithFunction (WrapFn S Req B E) (ServiceFactory Cfg S I)
        → Cfg
        → Taking (WrapFn S Req B E) (Result I S)
    new_apply_service m cfg = record { fut = m.a.new_service cfg; f = some m.f }

    -- Polls of the factory's future answer with the factory's service and the function, or its error.
    pub run-new_apply_service :
        (n : ℕ) (m : WithFunction (WrapFn S Req B E) (ServiceFactory Cfg S I)) (cfg : Cfg)
        → run poll_apply_service n (new_apply_service m cfg)
          ≡ done (
              await n (
                then_fut (m.a.new_service cfg) λ r. resolved (map_ok (λ svc. new_apply svc m.f) r)))
    unfolding new_apply_service
    run-new_apply_service n m cfg =
        run-Passes poll_apply_service (map_ok λ svc. new_apply svc m.f)
          (λ g. record { fut = g; f = some m.f }) (poll_apply_service-Passes m.f) n
          (m.a.new_service cfg)
