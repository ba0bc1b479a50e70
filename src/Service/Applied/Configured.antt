-- ===== src/Service/Applied/Configured.antt =====
-- actix-service/src/apply_cfg.rs: a function that makes a service of a configuration and another
-- service, which is shared, or which a factory creates and which is awaited until it is ready.
use actix_net.Prelude.{
  ℕ, zero, suc, ◌≡◌, refl, Option, none, some, Result, ok, err, Poll, pending, ready,
}
use actix_net.Prelude.Panics.{Outcome, done, panicked, out_of_fuel}
use actix_net.Prelude.Futures.{Fut, resolved, later, never, poll_fut, then_fut, try_fut}
use actix_net.Prelude.Tasks.{run, await, Steps, run-worth}
use actix_net.Service.{Service, ServiceFactory}

-- `ApplyConfigService::new_service`; the shared service's state goes on.
unfoldable pub new_configured {ℓ} :
    {S Cfg T I : Type ℓ} → (Cfg → S → S × Fut (Result I T)) → S → Cfg → S × Fut (Result I T)
new_configured f t cfg = f cfg t

-- `State`: the factory's future, the service that is not ready yet, or the function's future.
pub data ConfigState {ℓ} (S T I : Type ℓ) : Type ℓ where
  a : Fut (Result I S) → ConfigState S T I
  b : S → ConfigState S T I
  c : Fut (Result I T) → ConfigState S T I

-- `ApplyConfigServiceFactoryResponse`: `cfg` and `state`.
abbrev pub Configuring {ℓ} : (Cfg S T I : Type ℓ) → Type ℓ
Configuring Cfg S T I = Option Cfg × ConfigState S T I

-- `apply_cfg`: `ApplyConfigService::new_service`, whose function has the service.
unfoldable pub apply_cfg {ℓ} :
    {S Cfg T I : Type ℓ} → S → (Cfg → S → Fut (Result I T)) → ServiceFactory Cfg T I
apply_cfg srv f = record { new_service = λ cfg. f cfg srv }

-- A service's answers to `poll_ready` are described by a future for each of its states: its end is
-- the ready service, or the error.
module _ {ℓ} {S Req A E : Type ℓ} (srv : Service S Req A E) (wait : S → Fut (Result E S)) where
  abbrev pub Readies : S × Poll (Result E (Unit {0})) → Fut (Result E S) → Type ℓ
  Readies p (resolved (ok s)) = p ≡ (s, ready (ok tt))
  Readies p (resolved (err e)) = (s : S) × (p ≡ (s, ready (err e)))
  Readies p (later w) = (s : S) × (p ≡ (s, pending)) × (wait s ≡ w)
  Readies p never = (s : S) × (p ≡ (s, pending)) × (wait s ≡ never)

-- `from` is the conversion of the service's error.
module _ {ℓ} {S Req A E Cfg T I : Type ℓ} (srv : Service S Req A E) (from : E → I)
    (f : Cfg → S → Fut (Result I T)) where
  abbrev pub ConfiguringPoll : Type ℓ
  ConfiguringPoll = Outcome (Configuring Cfg S T I × Poll (Result I T))

  abbrev pub in_state : Option Cfg → ConfigState S T I → Configuring Cfg S T I
  in_state cfg s = (cfg, s)

  -- `ApplyConfigServiceFactory::new_service`.
  unfoldable pub new_configuring : ServiceFactory (Unit {ℓ}) S I → Cfg → Configuring Cfg S T I
  new_configuring factory cfg = in_state (some cfg) (a (factory.new_service tt))

  abbrev pub on_a :
      (Configuring Cfg S T I → ConfiguringPoll)
      → Option Cfg
      → Fut (Result I S) × Poll (Result I S)
      → ConfiguringPoll
  on_a again cfg (fut, pending) = done (in_state cfg (a fut), pending)
  on_a again cfg (fut, ready (err e)) = done (in_state cfg (a fut), ready (err e))
  on_a again cfg (fut, ready (ok svc)) = again (in_state cfg (b svc))

  abbrev pub take_cfg : (Configuring Cfg S T I → ConfiguringPoll) → Option Cfg → S → ConfiguringPoll
  take_cfg again none svc = panicked
  take_cfg again (some cfg) svc = again (in_state none (c (f cfg svc)))

  abbrev pub on_b :
      (Configuring Cfg S T I → ConfiguringPoll)
      → Option Cfg
      → S × Poll (Result E (Unit {0}))
      → ConfiguringPoll
  on_b again cfg (svc, pending) = done (in_state cfg (b svc), pending)
  on_b again cfg (svc, ready (err e)) = done (in_state cfg (b svc), ready (err (from e)))
  on_b again cfg (svc, ready (ok x)) = take_cfg again cfg svc

  -- `ApplyConfigServiceFactoryResponse::poll`, with fuel for its loop.
  unfoldable pub poll_configuring : ℕ → Configuring Cfg S T I → ConfiguringPoll
  poll_configuring zero r = out_of_fuel
  poll_configuring (suc n) (cfg, a fut) = on_a (λ r. poll_configuring n r) cfg (poll_fut fut)
  poll_configuring (suc n) (cfg, b svc) = on_b (λ r. poll_configuring n r) cfg (srv.poll_ready svc)
  poll_configuring (suc n) (cfg, c fut) =
      let (fut', answer) = poll_fut fut in done (in_state cfg (c fut'), answer)

  -- What the service's wait leads to.
  abbrev pub made : Cfg → Result E S → Fut (Result I T)
  made cfg (ok svc) = f cfg svc
  made cfg (err e) = resolved (err (from e))

  module _ (wait : S → Fut (Result E S)) where
    configuring_worth : Configuring Cfg S T I → Option (Fut (Result I T))
    configuring_worth (none, a fut) = none
    configuring_worth (some cfg, a fut) = some (try_fut fut λ svc. then_fut (wait svc) (made cfg))
    configuring_worth (none, b svc) = none
    configuring_worth (some cfg, b svc) = some (then_fut (wait svc) (made cfg))
    configuring_worth (cfg, c fut) = some fut

    c-Steps :
        (n m : ℕ) (cfg : Option Cfg) (fut : Fut (Result I T))
        → Steps
            (poll_configuring n)
            configuring_worth
            (poll_configuring (suc m) (in_state cfg (c fut)))
            (some fut)
    unfolding poll_configuring configuring_worth
    c-Steps n m cfg (resolved r) = (_, refl)
    c-Steps n m none (later g) = (_, refl, refl)
    c-Steps n m (some x) (later g) = (_, refl, refl)
    c-Steps n m none never = (_, refl, refl)
    c-Steps n m (some x) never = (_, refl, refl)

    on_b-Steps :
        (n m : ℕ) (cfg : Cfg) (p : S × Poll (Result E (Unit {0}))) (w : Fut (Result E S))
        → Readies srv wait p w
        → Steps
            (poll_configuring n)
            configuring_worth
            (on_b (λ r. poll_configuring (suc m) r) (some cfg) p)
            (some (then_fut w (made cfg)))
    unfolding configuring_worth
    on_b-Steps n m cfg p (resolved (ok s)) e = rw e (c-Steps n m none (f cfg s))
    on_b-Steps n m cfg p (resolved (err x)) (s, e) = rw e (_, refl)
    on_b-Steps n m cfg p (later w) (s, e, rest) =
        rw e (in_state (some cfg) (b s), refl, rw rest refl)
    on_b-Steps n m cfg p never (s, e, rest) = rw e (in_state (some cfg) (b s), refl, rw rest refl)

    module _ (readies : (s : S) → Readies srv wait (srv.poll_ready s) (wait s)) where
      b-Steps :
          (n m : ℕ) (cfg : Option Cfg) (svc : S)
          → Steps
              (poll_configuring n)
              configuring_worth
              (poll_configuring (suc (suc m)) (in_state cfg (b svc)))
              (configuring_worth (in_state cfg (b svc)))
      unfolding poll_configuring configuring_worth
      b-Steps n m none svc = tt
      b-Steps n m (some cfg) svc = on_b-Steps n m cfg (srv.poll_ready svc) (wait svc) (readies svc)

      a-Steps :
          (n m : ℕ) (cfg : Option Cfg) (fut : Fut (Result I S))
          → Steps
              (poll_configuring n)
              configuring_worth
              (poll_configuring (suc (suc (suc m))) (in_state cfg (a fut)))
              (configuring_worth (in_state cfg (a fut)))
      unfolding poll_configuring configuring_worth
      a-Steps n m none fut = tt
      a-Steps n m (some cfg) (resolved (ok svc)) = b-Steps n m (some cfg) svc
      a-Steps n m (some cfg) (resolved (err e)) = (_, refl)
      a-Steps n m (some cfg) (later g) = (_, refl, refl)
      a-Steps n m (some cfg) never = (_, refl, refl)

      poll_configuring-Steps :
          (n : ℕ) (r : Configuring Cfg S T I)
          → Steps
              (poll_configuring (suc (suc (suc n))))
              configuring_worth
              (poll_configuring (suc (suc (suc n))) r)
              (configuring_worth r)
      unfolding configuring_worth
      poll_configuring-Steps n (cfg, a fut) = a-Steps (suc (suc (suc n))) n cfg fut
      poll_configuring-Steps n (cfg, b svc) = b-Steps (suc (suc (suc n))) (suc n) cfg svc
      poll_configuring-Steps n (none, c fut) = c-Steps (suc (suc (suc n))) (suc (suc n)) none fut
      poll_configuring-Steps n (some x, c fut) =
          c-Steps (suc (suc (suc n))) (suc (suc n)) (some x) fut

      -- When a future for each state of the created service describes its answers to `poll_ready`,
      -- polls of the response, with three rounds of its loop or more for each, answer as the factory's
      -- future awaited, then the readiness of its service, then the function's future; an error of the
      -- factory, or the converted error of the readiness, is the answer.
      pub run-new_configuring :
          (rounds n : ℕ) (factory : ServiceFactory (Unit {ℓ}) S I) (cfg : Cfg)
          → run (poll_configuring (suc (suc (suc rounds)))) n (new_configuring factory cfg)
            ≡ done
                (await n (try_fut (factory.new_service tt) λ svc. then_fut (wait svc) (made cfg)))
      unfolding new_configuring configuring_worth
      run-new_configuring rounds n factory cfg =
          run-worth (poll_configuring (suc (suc (suc rounds)))) configuring_worth
            (poll_configuring-Steps rounds) n (in_state (some cfg) (a (factory.new_service tt))) _
            refl
