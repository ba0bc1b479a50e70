-- ===== src/Service.antt =====
-- actix-service: services, and the combinators that chain two of them.
pub mod Chains
pub mod Readiness
pub mod Factories
pub mod Maps
pub mod Creation
pub mod Applied
pub mod Functions
pub mod Tracing
mod Tests
mod CombinatorTests
use actix_net.Prelude.{Poll, Result}
use actix_net.Prelude.Futures.{Fut}

-- The trait `Service`: what a state of the service answers, and the state that follows. A call begins
-- a future.
pub record Service {ℓ} (S Req A E : Type ℓ) : Type ℓ where
  pub poll_ready : S → S × Poll (Result E (Unit {0}))
  pub call : S → Req → S × Fut (Result E A)

-- The trait `ServiceFactory`: a factory has no state, and a configuration begins a future.
pub record ServiceFactory {ℓ} (Cfg S I : Type ℓ) : Type ℓ where
  pub new_service : Cfg → Fut (Result I S)

-- The trait `Transform`: what it makes of a service is another one, later.
pub record Transform {ℓ} (S T I : Type ℓ) : Type ℓ where
  pub new_transform : S → Fut (Result I T)
