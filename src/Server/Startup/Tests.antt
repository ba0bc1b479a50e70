-- ===== src/Server/Startup/Tests.antt =====
-- The start of a server at concrete inputs (worker.rs and accept.rs of actix-server/src).
use actix_net.Prelude.{
  ℕ, zero, suc, Bool, false, true, ◌≡◌, refl, List, [], ◌∷◌, map, none, some, Result, ok, err,
  arith,
}
use actix_net.Prelude.Panics.{Outcome, done, panicked, ◌>>=◌}
use actix_net.Prelude.Futures.{Fut, resolved, later}
use actix_net.Server.Worker.{WorkerService, BoxedService}
use actix_net.Server.Sockets.{disabled, tcp_listener}
use actix_net.Server.Builder.{ServerBuilder}
use actix_net.Server.Builder.Tokens.{IsValid, factory_tokens}
use actix_net.Server.Startup.{
  create_services, create_from, create_service, wrap_worker_services, wrap_from, await_reports,
}
use actix_net.Server.Startup.Services.{value, wrap-create_services}
use actix_net.Server.Startup.Launch.{
  Launch, new_launch, LaunchAct, polled, requested, abandoned, launch_acts, poll_launch,
}
use actix_net.Server.Startup.Launch.Once.{IsOnce, create_services-Wraps, launch-IsOnce}
use actix_net.Server.Startup.Reports.{IsVerdict, await_reports_lem}

abbrev idle : BoxedService
idle = record { answers = []; calls = [] }

-- A factory creates its service after a number of polls.
abbrev slow : ℕ → Fut (Result ℕ BoxedService)
slow zero = resolved (ok idle)
slow (suc n) = later (slow n)

abbrev two_services : ServerBuilder ℕ ℕ ℕ
two_services = record {
  threads = 2;
  token = 2;
  backlog = 128;
  factories =
      record { name = []; inner = 2; token = 0; addr = 80 }
      ∷ record { name = []; inner = 0; token = 1; addr = 81 }
      ∷ [];
  sockets = (0, [], tcp_listener 80) ∷ (1, [], tcp_listener 81) ∷ [];
  mptcp = disabled;
  exit = false;
  listen_os_signals = true;
  shutdown_signal = none;
  worker_config = record {
    shutdown_timeout = 30000;
    max_blocking_threads = 64;
    max_concurrent_connections = 25600;
  };
}

two_services-IsValid : IsValid two_services
two_services-IsValid = record {
  factories = refl;
  sockets = refl;
  names = refl;
  some_threads = ground arith;
  few_threads = ground arith;
  some_connections = ground arith;
}

wrap-create_services_example :
    (created : List (ℕ × ℕ × BoxedService)) × (ws : List WorkerService) × (value
        (create_services slow two_services.factories)
      ≡ some (ok created))
    × (wrap_worker_services created ≡ done ws)
    × (map (λ (w : WorkerService). w.service) ws ≡ idle ∷ idle ∷ [])
    × (map (λ (w : WorkerService). w.factory_idx) ws ≡ factory_tokens two_services)
wrap-create_services_example =
    wrap-create_services slow two_services (idle ∷ idle ∷ []) two_services-IsValid
      (refl, (refl, tt))

-- Tokens out of order.
wrap_test : wrap_worker_services ((0, 1, idle) ∷ []) ≡ panicked
unfolding wrap_worker_services wrap_from
wrap_test = refl

abbrev reports : List (ℕ × Result ℕ (Unit {0}))
reports = (1, ok tt) ∷ (0, err 9) ∷ (2, ok tt) ∷ []

await_reports_lem_example :
    IsVerdict 7 (0 ∷ 1 ∷ 2 ∷ []) false (some (0, 9)) (await_reports 7 (0 ∷ 1 ∷ 2 ∷ []) 3 reports)
await_reports_lem_example = await_reports_lem 7 (0 ∷ 1 ∷ 2 ∷ []) 3 reports

-- A worker whose creation of services takes three polls is stopped after the first one.
abbrev launch_story : List LaunchAct
launch_story =
    polled false
    ∷ requested (record { graceful = true; tx = 4 })
    ∷ polled true
    ∷ abandoned
    ∷ polled false
    ∷ []

abbrev launched : Outcome Launch
launched =
    launch_acts 0 two_services.worker_config
      (new_launch (create_services slow two_services.factories)) launch_story

launch-IsOnce_example : IsOnce 0 two_services.worker_config launched
launch-IsOnce_example =
    launch-IsOnce 0 two_services.worker_config (create_services slow two_services.factories)
      launch_story
      (create_services-Wraps slow two_services (idle ∷ idle ∷ []) two_services-IsValid
        (refl, (refl, tt)))

abbrev what_was_sent : Launch → Outcome (List (ℕ × Bool) × List (ℕ × Result ℕ (Unit {0})))
what_was_sent l = done (l.told, l.reports)

launch_test : (launched >>= what_was_sent) ≡ done ((4, true) ∷ [], [])
unfolding poll_launch create_services create_from create_service
launch_test = refl
