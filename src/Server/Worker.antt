-- ===== src/Server/Worker.antt =====
-- actix-server/src/worker.rs: the services of a worker, their readiness, and the worker's state.
-- A service is the answers of its `poll_ready` and the connections that it was called with. The
-- factories are a parameter: the future of each creation, by the factory and by how many creations
-- there were before. Logging is left out.
pub mod Polling
pub mod Readiness
pub mod Checks
pub mod Serving
pub mod Dispatching
pub mod Serves
pub mod Stops
pub mod Shutdowns
pub mod Crashes
pub mod StopRequests
mod Tests
use actix_net.Prelude.{
  ℕ, zero, suc, ◌+◌, ◌-◌, Bool, true, false, ◌&&◌, List, [], ◌∷◌, ◌++◌, Option, none, some,
  get_elem?, set, map, Result, ok, err, Poll, pending, ready, if◌then◌else◌,
}
use actix_net.Prelude.Futures.{Fut}
use actix_net.Server.Handle.{Conn, Counter, dec, new_counter}
use actix_net.Server.Accept.{WakerInterest, worker_available}

-- The status of a service.
pub data WorkerServiceStatus : Type 0 where
  available unavailable failed restarting stopping stopped : WorkerServiceStatus

abbrev pub Answer : Type 0
Answer = Poll (Result (Unit {0}) (Unit {0}))

pub record BoxedService : Type 0 where
  pub answers : List Answer
  pub calls : List Conn

pub record WorkerService : Type 0 where
  pub factory_idx : ℕ
  pub status : WorkerServiceStatus
  pub service : BoxedService

unfoldable pub poll_service : BoxedService → BoxedService × Answer
poll_service s = elim (s.answers) [
  | [] ↦ (s, pending)
  | a ∷ rest ↦ (record s { answers = rest }, a)
]

-- `WorkerService::created`.
unfoldable pub created : WorkerService → BoxedService → WorkerService
created s service = record s { service = service; status = WorkerServiceStatus.unavailable }

abbrev pub is_polled : WorkerServiceStatus → Bool
is_polled WorkerServiceStatus.available = true
is_polled WorkerServiceStatus.unavailable = true
is_polled WorkerServiceStatus.failed = false
is_polled WorkerServiceStatus.restarting = false
is_polled WorkerServiceStatus.stopping = false
is_polled WorkerServiceStatus.stopped = false

abbrev pub with_answer :
    WorkerService → BoxedService → Answer → WorkerService × Result (Unit {0}) Bool
with_answer s service (ready (ok x)) =
    (record s { service = service; status = WorkerServiceStatus.available }, ok true)
with_answer s service pending =
    (record s { service = service; status = WorkerServiceStatus.unavailable }, ok false)
with_answer s service (ready (err x)) =
    (record s { service = service; status = WorkerServiceStatus.failed }, err x)

-- The body of the loop of `check_readiness`: the service, and whether it is ready.
unfoldable pub check_service : WorkerService → WorkerService × Result (Unit {0}) Bool
unfolding poll_service
check_service s =
    if is_polled s.status
    then (let (service, answer) = poll_service s.service in with_answer s service answer)
    else (s, ok true)

abbrev pub both_ready : Bool → Result (ℕ × ℕ) Bool → Result (ℕ × ℕ) Bool
both_ready b (ok c) = ok (b && c)
both_ready b (err e) = err e

-- `check_readiness`, from the service at an index on.
unfoldable pub check_from : ℕ → List WorkerService → List WorkerService × Result (ℕ × ℕ) Bool
check_from idx [] = ([], ok true)
check_from idx (s ∷ ss) =
    let (s', r) = check_service s in
    elim r [
      | err x ↦ (s' ∷ ss, err (idx, s.factory_idx))
      | ok b ↦ let (ss', r') = check_from (idx + 1) ss in (s' ∷ ss', both_ready b r')
    ]

pub record Restart : Type 0 where
  pub factory_id : ℕ
  pub token : ℕ
  pub fut : Fut (Result (Unit {0}) (ℕ × BoxedService))

-- Times are in milliseconds; `tx` names who is told the outcome.
pub record Shutdown : Type 0 where
  pub timer : ℕ
  pub start_from : ℕ
  pub tx : ℕ

pub data WorkerState : Type 0 where
  unavailable available : WorkerState
  restarting : Restart → WorkerState
  shutdown : Shutdown → WorkerState

pub record Stop : Type 0 where
  pub graceful : Bool
  pub tx : ℕ

-- `told` is what has been sent to those who stop the worker, `waker_queue` what this worker has put
-- into the queue of the accept thread, and `creations` how often a service was created again.
pub record ServerWorker : Type 0 where
  pub conn_rx : List Conn
  pub stop_rx : List Stop
  pub idx : ℕ
  pub counter : Counter
  pub waker_queue : List WakerInterest
  pub services : List WorkerService
  pub state : WorkerState
  pub shutdown_timeout : ℕ
  pub creations : ℕ
  pub told : List (ℕ × Bool)

unfoldable pub check_readiness : ServerWorker → ServerWorker × Result (ℕ × ℕ) Bool
check_readiness w =
    let (services, r) = check_from 0 w.services in (record w { services = services }, r)

-- The services' statuses at a stop.
unfoldable pub shutdown_service : Bool → WorkerService → WorkerService
shutdown_service force s = elim (s.status) [
  | WorkerServiceStatus.available ↦ record s {
    status = if force then WorkerServiceStatus.stopped else WorkerServiceStatus.stopping;
  }
  | WorkerServiceStatus.unavailable ↦ s
  | WorkerServiceStatus.failed ↦ s
  | WorkerServiceStatus.restarting ↦ s
  | WorkerServiceStatus.stopping ↦ s
  | WorkerServiceStatus.stopped ↦ s
]

unfoldable pub shutdown_services : Bool → ServerWorker → ServerWorker
shutdown_services force w = record w { services = map (shutdown_service force) w.services }

-- A change of the service at an index; the code panics at an index that is out of range.
abbrev pub with_service :
    ServerWorker → ℕ → (WorkerService → WorkerService) → Option WorkerService → Option ServerWorker
with_service w i f none = none
with_service w i f (some s) = some (record w { services = set w.services i (f s) })

abbrev pub update_service : ServerWorker → ℕ → (WorkerService → WorkerService) → Option ServerWorker
update_service w i f = with_service w i f (get_elem? w.services i)

-- The drop of a `WorkerCounterGuard`.
unfoldable pub drop_guard : ServerWorker → ServerWorker
unfolding dec
drop_guard w =
    let (counter, below) = dec w.counter in
    record w {
      counter = counter;
      waker_queue = if below then w.waker_queue ++ worker_available w.idx ∷ [] else w.waker_queue;
    }

-- The loop at the start of the shutdown's poll: queued connections are dropped with their guards.
unfoldable pub drop_queued : List Conn → ServerWorker → ServerWorker
drop_queued [] w = record w { conn_rx = [] }
drop_queued (c ∷ cs) w = drop_queued cs (drop_guard w)
