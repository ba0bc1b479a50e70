-- ===== src/Server/Startup.antt =====
-- How the server starts: the services of a worker (service.rs and worker.rs of actix-server/src), the
-- sockets and the workers' reports (accept.rs). The future that a user's factory makes is a parameter.
pub mod Services
pub mod Reports
pub mod Launch
mod Tests
use actix_net.Prelude.{
  ℕ, zero, suc, ◌+◌, List, [], ◌∷◌, ◌++◌, none, Result, ok, err, ◌==◌, if◌then◌else◌, Bool, true,
  false, Option, some, map, not,
}
use actix_net.Prelude.Panics.{Outcome, done, panicked, ◌>>=◌}
use actix_net.Prelude.Futures.{Fut, resolved, then_fut}
use actix_net.Server.Worker.{WorkerService, WorkerServiceStatus, BoxedService}
use actix_net.Server.Listeners.{ServerSocketInfo}
use actix_net.Server.Sockets.{MioListener}
use actix_net.Server.Builder.{Name, StreamNewService}

abbrev pub tagged :
    {I : Type 0} → ℕ → Result I BoxedService → Fut (Result (Unit {0}) (ℕ × BoxedService))
tagged token (ok inner) = resolved (ok (token, inner))
tagged token (err e) = resolved (err tt)

abbrev pub on_service :
    (List (ℕ × ℕ × BoxedService) → Fut (Result ℕ (List (ℕ × ℕ × BoxedService))))
    → ℕ
    → List (ℕ × ℕ × BoxedService)
    → Result (Unit {0}) (ℕ × BoxedService)
    → Fut (Result ℕ (List (ℕ × ℕ × BoxedService)))
on_service go_on idx services (ok (token, svc)) = go_on (services ++ (idx, token, svc) ∷ [])
on_service go_on idx services (err e) = resolved (err idx)

module _ {F A I : Type 0} (new_service : F → Fut (Result I BoxedService)) where
  -- `StreamNewService::create`.
  unfoldable pub create_service : StreamNewService F A → Fut (Result (Unit {0}) (ℕ × BoxedService))
  create_service s = then_fut (new_service s.inner) (tagged s.token)

  -- The future of `create_services` that creates the services one after the other; its error is the
  -- index of the factory that failed.
  unfoldable pub create_from :
      ℕ
      → List (ℕ × ℕ × BoxedService)
      → List (StreamNewService F A)
      → Fut (Result ℕ (List (ℕ × ℕ × BoxedService)))
  create_from idx services [] = resolved (ok services)
  create_from idx services (f ∷ fs) =
      then_fut (create_service f) (on_service (λ ss. create_from (idx + 1) ss fs) idx services)

  unfoldable pub create_services :
      List (StreamNewService F A) → Fut (Result ℕ (List (ℕ × ℕ × BoxedService)))
  create_services factories = create_from 0 [] factories

-- `wrap_worker_services`, which asserts that a token is the position of its service.
abbrev pub new_service_of : ℕ → BoxedService → WorkerService
new_service_of idx service = record {
  factory_idx = idx;
  service = service;
  status = WorkerServiceStatus.unavailable;
}

unfoldable pub wrap_from : ℕ → List (ℕ × ℕ × BoxedService) → Outcome (List WorkerService)
wrap_from position [] = done []
wrap_from position ((idx, token, service) ∷ ss) =
    let rest = wrap_from (position + 1) ss in
    if token == position then (rest >>= λ ws. done (new_service_of idx service ∷ ws)) else panicked

unfoldable pub wrap_worker_services : List (ℕ × ℕ × BoxedService) → Outcome (List WorkerService)
wrap_worker_services services = wrap_from 0 services

-- The sockets of `Accept::new_with_sockets`: each is registered with the poll under its token.
abbrev pub opened :
    {E : Type 0}
    → ServerSocketInfo
    → Result E (Unit {0})
    → Result E (List ServerSocketInfo)
    → Result E (List ServerSocketInfo)
opened info (err e) rest = err e
opened info (ok x) (err e) = err e
opened info (ok x) (ok infos) = ok (info ∷ infos)

module _ {L E : Type 0} (register : ℕ → MioListener L → Result E (Unit {0})) where
  unfoldable pub open_sockets : List (ℕ × Name × MioListener L) → Result E (List (ServerSocketInfo))
  open_sockets [] = ok []
  open_sockets ((token, name, lst) ∷ ss) =
      let rest = open_sockets ss in
      opened (record { token = token; timeout = none; registered = true }) (register token lst) rest

-- The workers whose forced stop is asked for, by their index.
abbrev pub all_but : ℕ → List ℕ → List ℕ
all_but failed_idx [] = []
all_but failed_idx (i ∷ is) =
    let rest = all_but failed_idx is in if i == failed_idx then rest else i ∷ rest

-- The loop of `Accept::start` that awaits the workers' reports, which end when every worker has let go
-- of the channel: the workers that it stops, and the result.
module _ {E : Type 0} (exited : E) where
  unfoldable pub await_reports :
      List ℕ → ℕ → List (ℕ × Result E (Unit {0})) → List ℕ × Result E (Unit {0})
  await_reports handles zero reports = ([], ok tt)
  await_reports handles (suc awaiting) [] = (handles, err exited)
  await_reports handles (suc awaiting) ((idx, ok x) ∷ reports) =
      await_reports handles awaiting reports
  await_reports handles (suc awaiting) ((failed_idx, err e) ∷ reports) =
      (all_but failed_idx handles, err e)
