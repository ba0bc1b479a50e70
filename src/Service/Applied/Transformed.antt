-- ===== src/Service/Applied/Transformed.antt =====
-- actix-service/src/transform.rs: a transform that is applied to the service of a factory.
use actix_net.Prelude.{ℕ, zero, suc, ◌≡◌, refl, Option, some, Result, ok, err, Poll, pending, ready}
use actix_net.Prelude.Panics.{Outcome, done, out_of_fuel}
use actix_net.Prelude.Futures.{Fut, resolved, later, never, poll_fut, try_fut}
use actix_net.Prelude.Tasks.{run, await, Steps, run-worth}
use actix_net.Service.{ServiceFactory, Transform}

-- `ApplyTransform`.
pub record ApplyTransform {ℓ} (Cfg S T I : Type ℓ) : Type ℓ where
  pub transform : Transform S T I
  pub factory : ServiceFactory Cfg S I

-- `ApplyTransformFutureState`: the factory's future, or the transform's.
pub data TransformState {ℓ} (S T I : Type ℓ) : Type ℓ where
  a : Fut (Result I S) → TransformState S T I
  b : Fut (Result I T) → TransformState S T I

module _ {ℓ} {Cfg S T I : Type ℓ} where
  -- `ApplyTransform::new`.
  abbrev pub apply : Transform S T I → ServiceFactory Cfg S I → ApplyTransform Cfg S T I
  apply t factory = record { transform = t; factory = factory }

  -- `ApplyTransform::new_service`.
  unfoldable pub new_transformed : ApplyTransform Cfg S T I → Cfg → TransformState S T I
  new_transformed m cfg = a (m.factory.new_service cfg)

module _ {ℓ} {S T I : Type ℓ} (t : Transform S T I) where
  abbrev pub on_service :
      (TransformState S T I → Outcome (TransformState S T I × Poll (Result I T)))
      → Fut (Result I S) × Poll (Result I S)
      → Outcome (TransformState S T I × Poll (Result I T))
  on_service again (fut, pending) = done (a fut, pending)
  on_service again (fut, ready (err e)) = done (a fut, ready (err e))
  on_service again (fut, ready (ok srv)) = again (b (t.new_transform srv))

  -- `ApplyTransformFuture::poll`, with fuel for its loop.
  unfoldable pub poll_transformed :
      ℕ → TransformState S T I → Outcome (TransformState S T I × Poll (Result I T))
  poll_transformed zero s = out_of_fuel
  poll_transformed (suc n) (a fut) = on_service (λ s. poll_transformed n s) (poll_fut fut)
  poll_transformed (suc n) (b fut) = let (fut', answer) = poll_fut fut in done (b fut', answer)

  transformed_worth : TransformState S T I → Option (Fut (Result I T))
  transformed_worth (a fut) = some (try_fut fut λ srv. t.new_transform srv)
  transformed_worth (b fut) = some fut

  b-Steps :
      (n m : ℕ) (fut : Fut (Result I T))
      → Steps (poll_transformed n) transformed_worth (poll_transformed (suc m) (b fut)) (some fut)
  unfolding poll_transformed transformed_worth
  b-Steps n m (resolved r) = (_, refl)
  b-Steps n m (later f) = (_, refl, refl)
  b-Steps n m never = (_, refl, refl)

  poll_transformed-Steps :
      (n : ℕ) (s : TransformState S T I)
      → Steps
          (poll_transformed (suc (suc n)))
          transformed_worth
          (poll_transformed (suc (suc n)) s)
          (transformed_worth s)
  unfolding poll_transformed transformed_worth
  poll_transformed-Steps n (a (resolved (ok srv))) = b-Steps (suc (suc n)) n (t.new_transform srv)
  poll_transformed-Steps n (a (resolved (err e))) = (_, refl)
  poll_transformed-Steps n (a (later f)) = (_, refl, refl)
  poll_transformed-Steps n (a never) = (_, refl, refl)
  poll_transformed-Steps n (b fut) = b-Steps (suc (suc n)) (suc n) fut

  -- Polls of the future, with two rounds of its loop or more for each, answer as the factory's future
  -- awaited, and then the transform of its service; an error of the factory is the answer.
  pub run-new_transformed :
      {Cfg : Type ℓ} (rounds n : ℕ) (factory : ServiceFactory Cfg S I) (cfg : Cfg)
      → run (poll_transformed (suc (suc rounds))) n (new_transformed (apply t factory) cfg)
        ≡ done (await n (try_fut (factory.new_service cfg) λ srv. t.new_transform srv))
  unfolding new_transformed transformed_worth
  run-new_transformed rounds n factory cfg =
      run-worth (poll_transformed (suc (suc rounds))) transformed_worth
        (poll_transformed-Steps rounds) n (a (factory.new_service cfg)) _ refl
