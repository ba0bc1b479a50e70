-- ===== src/Service/Creation.antt =====
-- The factories of map.rs, map_err.rs, map_init_err.rs, transform_err.rs and apply.rs of
-- actix-service/src: a created service is wrapped with the factory's function.
use actix_net.Prelude.{ℕ, ◌≡◌, refl, Option, none, some, Result, ok, err, Poll, pending, ready}
use actix_net.Prelude.Panics.{Outcome, done, panicked}
use actix_net.Prelude.Futures.{Fut, resolved, later, never, poll_fut, then_fut}
use actix_net.Prelude.Tasks.{run, await, Passes, run-Passes}
use actix_net.Service.{ServiceFactory, Transform}
use actix_net.Service.Maps.{
  Map, MapFuture, map_ok, map_err, poll_mapped_err, poll_mapped_err-Passes, poll_transform_err,
  poll_transform_err-Passes,
}

-- `MapServiceFactory`, `MapErrServiceFactory`, `MapInitErr`, `TransformMapInitErr` and `ApplyFactory`.
pub record WithFunction {ℓ} (F : Type ℓ) (G : Type ℓ) : Type ℓ where
  pub a : G
  pub f : F

-- A future that gives its function away when the service is there.
pub record Taking {ℓ} (F R : Type ℓ) : Type ℓ where
  pub fut : Fut R
  pub f : Option F

-- `Map::new` and `MapErr::new`.
abbrev pub new_map {ℓ} : {S A B : Type ℓ} → S → (A → B) → Map S A B
new_map service f = record { service = service; f = f }

module _ {ℓ} {S I A B : Type ℓ} where
  -- `take().unwrap()` of the function.
  abbrev pub wrap_map :
      Fut (Result I S)
      → S
      → Option (A → B)
      → Outcome (Taking (A → B) (Result I S) × Poll (Result I (Map S A B)))
  wrap_map fut svc none = panicked
  wrap_map fut svc (some f) = done (record { fut = fut; f = none }, ready (ok (new_map svc f)))

  abbrev pub on_map_service :
      Option (A → B)
      → Fut (Result I S) × Poll (Result I S)
      → Outcome (Taking (A → B) (Result I S) × Poll (Result I (Map S A B)))
  on_map_service f (fut, ready (ok svc)) = wrap_map fut svc f
  on_map_service f (fut, ready (err e)) = done (record { fut = fut; f = f }, ready (err e))
  on_map_service f (fut, pending) = done (record { fut = fut; f = f }, pending)

  -- `MapServiceFuture::poll`.
  unfoldable pub poll_map_service :
      Taking (A → B) (Result I S)
      → Outcome (Taking (A → B) (Result I S) × Poll (Result I (Map S A B)))
  poll_map_service m = on_map_service m.f (poll_fut m.fut)

  poll_map_service-Passes :
      (f : A → B) (fut : Fut (Result I S))
      → Passes poll_map_service
          (map_ok λ svc. new_map svc f)
          (λ g. record { fut = g; f = some f })
          (poll_map_service (record { fut = fut; f = some f }))
          fut
  unfolding poll_map_service
  poll_map_service-Passes f (resolved (ok svc)) = (_, refl)
  poll_map_service-Passes f (resolved (err e)) = (_, refl)
  poll_map_service-Passes f (later fut) = refl
  poll_map_service-Passes f never = refl

  module _ {Cfg : Type ℓ} where
    -- `MapServiceFactory::new_service`.
    unfoldable pub new_map_service :
        WithFunction (A → B) (ServiceFactory Cfg S I) → Cfg → Taking (A → B) (Result I S)
    new_map_service m cfg = record { fut = m.a.new_service cfg; f = some m.f }

    -- Polls of the factory's future answer with the factory's service, wrapped with the function, when
    -- the service is there, and with its error.
    pub run-new_map_service :
        (n : ℕ) (m : WithFunction (A → B) (ServiceFactory Cfg S I)) (cfg : Cfg)
        → run poll_map_service n (new_map_service m cfg)
          ≡ done (
              await n
                (then_fut (m.a.new_service cfg) λ r. resolved (map_ok (λ svc. new_map svc m.f) r)))
    unfolding new_map_service
    run-new_map_service n m cfg =
        run-Passes poll_map_service (map_ok λ svc. new_map svc m.f)
          (λ g. record { fut = g; f = some m.f }) (poll_map_service-Passes m.f) n
          (m.a.new_service cfg)

-- `MapErrServiceFuture::poll`, which keeps its function.
module _ {ℓ} {S I E G : Type ℓ} where
  abbrev pub on_map_err_service :
      (E → G)
      → Fut (Result I S) × Poll (Result I S)
      → Outcome (MapFuture (Result I S) E G × Poll (Result I (Map S E G)))
  on_map_err_service f (fut, ready (ok svc)) =
      done (record { f = f; fut = fut }, ready (ok (new_map svc f)))
  on_map_err_service f (fut, ready (err e)) = done (record { f = f; fut = fut }, ready (err e))
  on_map_err_service f (fut, pending) = done (record { f = f; fut = fut }, pending)

  unfoldable pub poll_map_err_service :
      MapFuture (Result I S) E G
      → Outcome (MapFuture (Result I S) E G × Poll (Result I (Map S E G)))
  poll_map_err_service m = on_map_err_service m.f (poll_fut m.fut)

  poll_map_err_service-Passes :
      (f : E → G) (fut : Fut (Result I S))
      → Passes poll_map_err_service
          (map_ok λ svc. new_map svc f)
          (λ g. record { f = f; fut = g })
          (poll_map_err_service (record { f = f; fut = fut }))
          fut
  unfolding poll_map_err_service
  poll_map_err_service-Passes f (resolved (ok svc)) = (_, refl)
  poll_map_err_service-Passes f (resolved (err e)) = (_, refl)
  poll_map_err_service-Passes f (later fut) = refl
  poll_map_err_service-Passes f never = refl

  module _ {Cfg : Type ℓ} where
    -- `MapErrServiceFactory::new_service`.
    unfoldable pub new_map_err_service :
        WithFunction (E → G) (ServiceFactory Cfg S I) → Cfg → MapFuture (Result I S) E G
    new_map_err_service m cfg = record { f = m.f; fut = m.a.new_service cfg }

    -- The same of the factory for errors.
    pub run-new_map_err_service :
        (n : ℕ) (m : WithFunction (E → G) (ServiceFactory Cfg S I)) (cfg : Cfg)
        → run poll_map_err_service n (new_map_err_service m cfg)
          ≡ done (
              await n
                (then_fut (m.a.new_service cfg) λ r. resolved (map_ok (λ svc. new_map svc m.f) r)))
    unfolding new_map_err_service
    run-new_map_err_service n m cfg =
        run-Passes poll_map_err_service (map_ok λ svc. new_map svc m.f)
          (λ g. record { f = m.f; fut = g }) (poll_map_err_service-Passes m.f) n
          (m.a.new_service cfg)

module _ {ℓ} {S I G Cfg : Type ℓ} where
  -- `MapInitErr::new_service`.
  unfoldable pub new_init_err :
      WithFunction (I → G) (ServiceFactory Cfg S I) → Cfg → MapFuture (Result I S) I G
  new_init_err m cfg = record { f = m.f; fut = m.a.new_service cfg }

  -- Polls of the future answer as the factory's own, its error changed by the function.
  pub run-new_init_err :
      (n : ℕ) (m : WithFunction (I → G) (ServiceFactory Cfg S I)) (cfg : Cfg)
      → run poll_mapped_err n (new_init_err m cfg)
        ≡ done (await n (then_fut (m.a.new_service cfg) λ r. resolved (map_err m.f r)))
  unfolding new_init_err
  run-new_init_err n m cfg =
      run-Passes poll_mapped_err (map_err m.f) (λ g. record { f = m.f; fut = g })
        (poll_mapped_err-Passes m.f) n (m.a.new_service cfg)

module _ {ℓ} {S T I G : Type ℓ} where
  -- `TransformMapInitErr::new_transform`.
  unfoldable pub new_transform_err :
      WithFunction (I → G) (Transform S T I) → S → MapFuture (Result I T) I G
  new_transform_err m service = record { f = m.f; fut = m.a.new_transform service }

  -- Polls of the future answer as the transform's own, its error changed by the function.
  pub run-new_transform_err :
      (n : ℕ) (m : WithFunction (I → G) (Transform S T I)) (service : S)
      → run poll_transform_err n (new_transform_err m service)
        ≡ done (await n (then_fut (m.a.new_transform service) λ r. resolved (map_err m.f r)))
  unfolding new_transform_err
  run-new_transform_err n m service =
      run-Passes poll_transform_err (map_err m.f) (λ g. record { f = m.f; fut = g })
        (poll_transform_err-Passes m.f) n (m.a.new_transform service)
