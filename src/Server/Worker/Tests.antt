-- ===== src/Server/Worker/Tests.antt =====
-- Runs of a worker (actix-server/src/worker.rs) at concrete inputs.
use actix_net.Prelude.{
  ℕ, ◌≡◌, refl, true, List, [], ◌∷◌, Result, ok, err, pending, ready, arith, inl, inr,
}
use actix_net.Prelude.Futures.{Fut, resolved}
use actix_net.Prelude.Panics.{out_of_fuel}
use actix_net.Server.Handle.{Conn}
use actix_net.Server.Handle.Laws.{IsLoad}
use actix_net.Server.Worker.{
  BoxedService, WorkerService, WorkerServiceStatus, WorkerState, Shutdown, Stop, ServerWorker,
}
use actix_net.Server.Worker.Polling.{poll}
use actix_net.Server.Worker.Serves.{poll-Serves}
use actix_net.Server.Worker.Serving.{Serves, IsFit}
use actix_net.Server.Worker.Stops.{IsStopping, StopsWith, poll-StopsWith}
use actix_net.Server.Worker.Shutdowns.{IsOutside, poll_times, Ended, poll_times-Ended}
use actix_net.Server.Worker.Crashes.{IsCrashing, poll_endless}
use actix_net.Server.Worker.StopRequests.{Stopped, poll-Stopped}

-- Every new service fails at once.
abbrev failing : BoxedService
failing = record { answers = ready (err tt) ∷ []; calls = [] }

abbrev create : ℕ → ℕ → Fut (Result (Unit {0}) (ℕ × BoxedService))
create f k = resolved (ok (0, failing))

abbrev service : BoxedService → WorkerService
service b = record { factory_idx = 0; status = WorkerServiceStatus.unavailable; service = b }

-- Ready for the first connection, and not yet for the second.
abbrev healthy : BoxedService
healthy = record { answers = ready (ok tt) ∷ ready (ok tt) ∷ pending ∷ []; calls = [] }

abbrev conn : ℕ → Conn
conn io = record { io = io; token = 0 }

abbrev worker : List WorkerService → WorkerState → List Stop → ℕ → ServerWorker
worker services state stops raw = record {
  conn_rx = conn 7 ∷ conn 8 ∷ [];
  stop_rx = stops;
  idx = 0;
  counter = record { raw = raw; limit = 8 };
  waker_queue = [];
  services = services;
  state = state;
  shutdown_timeout = 3000;
  creations = 0;
  told = [];
}

abbrev serving : ServerWorker
serving = worker (service healthy ∷ []) WorkerState.unavailable [] 3

serving-IsFit : IsFit serving
serving-IsFit = record {
  healthy = ((refl, (tt, (tt, (tt, tt)))), tt);
  nonempty = omega arith;
  tokens = (omega arith, (omega arith, tt));
  unstopped = refl;
}

poll-Serves_example : Serves serving (poll create 7 0 serving)
poll-Serves_example = poll-Serves create 7 0 serving serving-IsFit (inl (refl, omega arith))

abbrev stopping_state : Shutdown
stopping_state = record { timer = 1000; start_from = 0; tx = 5 }

abbrev stopping : ServerWorker
stopping = worker [] (WorkerState.shutdown stopping_state) [] 4

stopping-IsStopping : IsStopping stopping stopping_state
stopping-IsStopping = record { state = refl; unstopped = refl; within = omega arith }

-- Two connections queued and one at work.
stopping-IsLoad : IsLoad (stopping.counter) 3
stopping-IsLoad = record { raw = refl; fits = omega arith }

poll-StopsWith_example : StopsWith stopping stopping_state 1 1000 (poll create 1 1000 stopping)
poll-StopsWith_example =
    poll-StopsWith create 0 1000 stopping stopping_state 1 stopping-IsStopping stopping-IsLoad

unchanged-IsOutside : IsOutside (λ w. w)
unchanged-IsOutside = record {
  state = λ w. refl;
  stops = λ w. refl;
  told = λ w. refl;
  timeout = λ w. refl;
  counted = λ w m l. (m, l);
}

poll_times-Ended_example :
    Ended create stopping stopping_state
      (poll_times create ((1000, λ w. w) ∷ (4000, λ w. w) ∷ []) stopping)
poll_times-Ended_example =
    poll_times-Ended create ((1000, λ w. w) ∷ (4000, λ w. w) ∷ []) stopping stopping_state 1
      (unchanged-IsOutside, (unchanged-IsOutside, tt)) stopping-IsStopping stopping-IsLoad
      (inr (inl (omega arith)))

abbrev crashing : ServerWorker
crashing = worker (service failing ∷ []) WorkerState.unavailable [] 3

crashing-IsCrashing : IsCrashing crashing
crashing-IsCrashing = record {
  first = service failing;
  others = [];
  services = refl;
  polled = refl;
  fails = ([], refl);
  state = refl;
  unstopped = refl;
}

poll_endless_example : poll create 100 0 crashing ≡ out_of_fuel
poll_endless_example =
    poll_endless create (λ f k. failing) (λ f k. refl) (λ f k. ([], refl)) 100 0 crashing
      crashing-IsCrashing

abbrev stop_message : Stop
stop_message = record { graceful = true; tx = 5 }

abbrev asked : ServerWorker
asked = worker (service healthy ∷ []) WorkerState.available (stop_message ∷ []) 4

asked-IsLoad : IsLoad (asked.counter) 3
asked-IsLoad = record { raw = refl; fits = omega arith }

poll-Stopped_example : Stopped asked stop_message [] 3 1 0 (poll create 1 0 asked)
poll-Stopped_example = poll-Stopped create 0 0 asked stop_message [] 1 refl asked-IsLoad
