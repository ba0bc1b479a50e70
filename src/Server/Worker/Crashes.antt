-- ===== src/Server/Worker/Crashes.antt =====
-- A service that fails whenever it is asked (actix-server/src/worker.rs), with a factory that makes
-- another at once.
use actix_net.Prelude.{
  ℕ, zero, suc, ◌+◌, ◌≡◌, refl, ap, ◌∙◌, true, List, [], ◌∷◌, Result, ok, err, ready, inl, inr, ◌⊎◌,
}
use actix_net.Prelude.Futures.{Fut, resolved}
use actix_net.Prelude.Panics.{out_of_fuel}
use actix_net.Server.Worker.{
  BoxedService, WorkerService, WorkerServiceStatus, WorkerState, Answer, is_polled, check_service,
  check_from, check_readiness, created, ServerWorker,
}
use actix_net.Server.Worker.Readiness.{poll_service-cons}
use actix_net.Server.Worker.Serves.{handle_stop_none, by_state-unavailable}
use actix_net.Server.Worker.Polling.{Polled, restart_service, on_unavailable, by_state, poll}

-- The next answer of the service is an error.
abbrev pub Fails : BoxedService → Type 0
Fails b = (rest : List Answer) × (b.answers ≡ ready (err tt) ∷ rest)

-- The first service fails, and nobody stops the worker.
pub record IsCrashing (w : ServerWorker) : Type 0 where
  pub first : WorkerService
  pub others : List WorkerService
  pub services : w.services ≡ first ∷ others
  pub polled : is_polled first.status ≡ true
  pub fails : Fails first.service
  pub state : w.state ≡ WorkerState.unavailable
  pub unstopped : w.stop_rx ≡ []

module _ (create : ℕ → ℕ → Fut (Result (Unit {0}) (ℕ × BoxedService))) (made : ℕ → ℕ → BoxedService)
    (creates : (f k : ℕ) → create f k ≡ resolved (ok (0, made f k)))
    (fails_again : (f k : ℕ) → Fails (made f k)) where
  -- The first service is being created again.
  record IsRecreating (w : ServerWorker) : Type 0 where
    first : WorkerService
    others : List WorkerService
    factory_id : ℕ
    nth : ℕ
    services : w.services ≡ first ∷ others
    state :
        w.state
        ≡ WorkerState.restarting
            (record { factory_id = factory_id; token = 0; fut = create factory_id nth })
    unstopped : w.stop_rx ≡ []

  -- After a failed check of the first service.
  abbrev broken : ServerWorker → WorkerService → List WorkerService → List Answer → ServerWorker
  broken w s ss rest = record w {
    services =
        record s {
          service = record (s.service) { answers = rest };
          status = WorkerServiceStatus.failed;
        }
        ∷ ss;
  }

  check_from-fails :
      (s s' : WorkerService) (ss : List WorkerService)
      → check_service s ≡ (s', err tt)
      → check_from 0 (s ∷ ss) ≡ (s' ∷ ss, err (0, s.factory_idx))
  unfolding check_from
  check_from-fails s s' ss e = rw (e, check_from) (ap (λ r. (r.0 ∷ ss, err (0, s.factory_idx))) e)

  check_readiness-fails :
      (w : ServerWorker) (s : WorkerService) (ss : List WorkerService) (rest : List Answer)
      → w.services ≡ s ∷ ss
      → is_polled s.status ≡ true
      → s.service.answers ≡ ready (err tt) ∷ rest
      → check_readiness w ≡ (broken w s ss rest, err (0, s.factory_idx))
  unfolding check_readiness check_service
  check_readiness-fails w s ss rest e p f =
      ap (λ r. (record w { services = r.0 }, r.1))
        (ap (check_from 0) e
          ∙ check_from-fails s _ ss (rw (p, poll_service-cons s.service _ rest f) refl))

  -- The state that a restart leaves.
  restarted :
      (w : ServerWorker)
      → IsCrashing w
      → (again : ServerWorker → Polled)
      → (v : ServerWorker) × IsRecreating v
        × (on_unavailable create again (check_readiness w) ≡ again v)
  unfolding restart_service
  restarted w c again =
      let (rest, e) = c.fails in
      let s = record (c.first) {
        service = record (c.first.service) { answers = rest };
        status = WorkerServiceStatus.restarting;
      } in
      let v = record w {
        services = s ∷ c.others;
        state = WorkerState.restarting (record {
          factory_id = c.first.factory_idx;
          token = 0;
          fut = create c.first.factory_idx w.creations;
        });
        creations = w.creations + 1;
      } in
      (
        v,
        record {
          first = s;
          others = c.others;
          factory_id = c.first.factory_idx;
          nth = w.creations;
          services = refl;
          state = refl;
          unstopped = c.unstopped;
        },
        rw (check_readiness-fails w c.first c.others rest c.services c.polled e) refl,
      )

  -- The state after the creation.
  recreated :
      (w : ServerWorker)
      → IsRecreating w
      → (again : ServerWorker → Polled) (now : ℕ)
      → (v : ServerWorker) × IsCrashing v × (by_state create again now w ≡ again v)
  unfolding by_state created
  recreated w c again now =
      let b = made c.factory_id c.nth in
      let s = record (c.first) { service = b; status = WorkerServiceStatus.unavailable } in
      let v = record w { services = s ∷ c.others; state = WorkerState.unavailable } in
      (
        v,
        record {
          first = s;
          others = c.others;
          services = refl;
          polled = refl;
          fails = fails_again c.factory_id c.nth;
          state = refl;
          unstopped = c.unstopped;
        },
        rw c.state (rw (creates c.factory_id c.nth, c.services) refl),
      )

  endless :
      (n now : ℕ) (w : ServerWorker)
      → IsCrashing w ⊎ IsRecreating w
      → poll create n now w ≡ out_of_fuel
  unfolding poll
  endless zero now w c = refl
  endless (suc n) now w (inl c) =
      let again = λ (v : ServerWorker). poll create n now v in
      let (v, c', e) = restarted w c again in
      rw (handle_stop_none now w c.unstopped, by_state-unavailable create again now w c.state)
        (e ∙ endless n now v (inr c'))
  endless (suc n) now w (inr c) =
      let again = λ (v : ServerWorker). poll create n now v in
      let (v, c', e) = recreated w c again now in
      rw (handle_stop_none now w c.unstopped) (e ∙ endless n now v (inl c'))

  -- When the first service fails, and each service that the factory makes is there at once and fails
  -- too, one poll calls itself without an end, whatever the fuel.
  pub poll_endless :
      (n now : ℕ) (w : ServerWorker) → IsCrashing w → poll create n now w ≡ out_of_fuel
  poll_endless n now w c = endless n now w (inl c)
