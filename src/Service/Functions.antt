-- ===== src/Service/Functions.antt =====
-- actix-service/src/fn_service.rs, map_config.rs and boxed.rs: functions as services and factories,
-- configurations changed, and services behind a trait object.
use actix_net.Prelude.{
  ◌≡◌, refl, Result, ok, Poll, ready, Option, none, some, List, [], ◌∷◌, ◌⊎◌, inl, inr,
}
use actix_net.Prelude.Futures.{Fut, resolved, then_fut}
use actix_net.Service.{Service, ServiceFactory}
use actix_net.Service.Maps.{map_ok}

module _ {ℓ} {Req A E : Type ℓ} where
  -- `FnService`; the function's own state is not observed. Its service has no state either.
  unfoldable pub fn_service : (Req → Fut (Result E A)) → Service (Unit {ℓ}) Req A E
  fn_service f = record { poll_ready = λ s. (s, ready (ok tt)); call = λ s req. (s, f req) }

  -- `FnServiceFactory::new_service`: the service is the function.
  unfoldable pub fn_service_factory :
      {Cfg I : Type ℓ} → (Req → Fut (Result E A)) → ServiceFactory Cfg (Req → Fut (Result E A)) I
  fn_service_factory f = record { new_service = λ cfg. resolved (ok f) }

module _ {ℓ} {Cfg S I : Type ℓ} where
  -- `FnServiceConfig::new_service`.
  unfoldable pub fn_factory_with_config : (Cfg → Fut (Result I S)) → ServiceFactory Cfg S I
  fn_factory_with_config f = record { new_service = f }

  -- `FnServiceNoConfig::new_service`.
  unfoldable pub fn_factory : (Unit {ℓ} → Fut (Result I S)) → ServiceFactory Cfg S I
  fn_factory f = record { new_service = λ cfg. f tt }

  -- `MapConfig::new_service`.
  unfoldable pub map_config :
      {D : Type ℓ} → ServiceFactory D S I → (Cfg → D) → ServiceFactory Cfg S I
  map_config factory f = record { new_service = λ cfg. factory.new_service (f cfg) }

  -- `UnitConfig::new_service`.
  unfoldable pub unit_config : ServiceFactory (Unit {ℓ}) S I → ServiceFactory Cfg S I
  unit_config factory = record { new_service = λ cfg. factory.new_service tt }

-- `ServiceWrapper`.
pub record ServiceWrapper {ℓ} (S : Type ℓ) : Type ℓ where
  pub inner : S

abbrev pub wrapper {ℓ} : {S : Type ℓ} → S → ServiceWrapper S
wrapper s = record { inner = s }

-- `boxed::service` and `boxed::rc_service`.
unfoldable pub boxed {ℓ} :
    {S Req A E : Type ℓ} → Service S Req A E → Service (ServiceWrapper S) Req A E
boxed a = record {
  poll_ready = λ w. let (s, answer) = a.poll_ready w.inner in (wrapper s, answer);
  call = λ w req. let (s, fut) = a.call w.inner req in (wrapper s, fut);
}

-- `boxed::factory`: `FactoryWrapper::new_service`.
unfoldable pub boxed_factory {ℓ} :
    {Cfg S I : Type ℓ} → ServiceFactory Cfg S I → ServiceFactory Cfg (ServiceWrapper S) I
boxed_factory m = record {
  new_service = λ cfg. then_fut (m.new_service cfg) λ r. resolved (map_ok wrapper r);
}

-- What a caller sees of a service: the answers to the operations, `none` for `poll_ready`.
module _ {ℓ} {S Req A E : Type ℓ} (a : Service S Req A E) where
  abbrev pub Answer : Type ℓ
  Answer = Poll (Result E (Unit {0})) ⊎ Fut (Result E A)

  abbrev pub answers : List (Option Req) → S → List Answer × S
  answers [] s = ([], s)
  answers (none ∷ ops) s =
      let (s1, answer) = a.poll_ready s in
      let (rest, s2) = answers ops s1 in (inl answer ∷ rest, s2)
  answers (some req ∷ ops) s =
      let (s1, fut) = a.call s req in let (rest, s2) = answers ops s1 in (inr fut ∷ rest, s2)

-- A caller sees the same of a boxed service as of the service itself.
pub answers-boxed {ℓ} :
    {S Req A E : Type ℓ} (a : Service S Req A E) (ops : List (Option Req)) (s : S)
    → answers (boxed a) ops (wrapper s) ≡ ((answers a ops s).0, wrapper (answers a ops s).1)
unfolding boxed
answers-boxed a [] s = refl
answers-boxed a (none ∷ ops) s = rw (answers-boxed a ops (a.poll_ready s).0) refl
answers-boxed a (some req ∷ ops) s = rw (answers-boxed a ops (a.call s req).0) refl
