-- ===== src/Server/Startup/Launch.antt =====
-- actix-server/src/worker.rs: the start of a worker's thread in `ServerWorker::spawn`, from the
-- creation of its services, which a stop cuts short, to the report and the worker. `tokio::select!`
-- polls its two branches in any order, which is an argument of the poll. The thread, its runtime and
-- the stop of its arbiter are left out, and the receiver of the reports may be gone.
pub mod Once
use actix_net.Prelude.{
  ℕ, ◌≡◌, refl, Bool, true, false, Bool-cases, List, [], ◌∷◌, ◌++◌, none, Result, ok, err, Poll,
  pending, ready, if◌then◌else◌, inl, inr, if_elim,
}
use actix_net.Prelude.Panics.{Outcome, done, panicked, out_of_fuel, ◌>>=◌}
use actix_net.Prelude.Futures.{Fut, resolved, later, never, poll_fut}
use actix_net.Server.Handle.{Conn, new_counter}
use actix_net.Server.Worker.{BoxedService, WorkerService, WorkerState, Stop, ServerWorker}
use actix_net.Server.Builder.{ServerWorkerConfig}
use actix_net.Server.Startup.{wrap_worker_services}

abbrev pub Created : Type 0
Created = Result ℕ (List (ℕ × ℕ × BoxedService))

pub data LaunchState : Type 0 where
  creating : Fut Created → LaunchState
  working : ServerWorker → LaunchState
  ended : LaunchState

-- The thread of a worker: `told` is what has been sent to those who stop it, `reports` what has been
-- sent on `startup_tx`, and `awaited` says that these are received.
pub record Launch : Type 0 where
  pub conn_rx : List Conn
  pub stop_rx : List Stop
  pub told : List (ℕ × Bool)
  pub reports : List (ℕ × Result ℕ (Unit {0}))
  pub awaited : Bool
  pub state : LaunchState

abbrev pub new_launch : Fut Created → Launch
new_launch create_fut = record {
  conn_rx = [];
  stop_rx = [];
  told = [];
  reports = [];
  awaited = true;
  state = creating create_fut;
}

-- A stop request that cancels the creation.
abbrev pub cancelled : Launch → Stop → List Stop → Launch
cancelled l s rest = record l { stop_rx = rest; told = l.told ++ (s.tx, true) ∷ []; state = ended }

module _ (idx : ℕ) (config : ServerWorkerConfig) where
  abbrev pub new_worker : Launch → List WorkerService → ServerWorker
  new_worker l services = record {
    conn_rx = l.conn_rx;
    stop_rx = l.stop_rx;
    idx = idx;
    counter = new_counter config.max_concurrent_connections;
    waker_queue = [];
    services = services;
    state = WorkerState.unavailable;
    shutdown_timeout = config.shutdown_timeout;
    creations = 0;
    told = [];
  }

  abbrev pub begun : Launch → List WorkerService → Outcome Launch
  begun l services = done (record l {
    conn_rx = [];
    stop_rx = [];
    reports = l.reports ++ (idx, ok tt) ∷ [];
    state = working (new_worker l services);
  })

  abbrev pub report_error : Launch → ℕ → Launch
  report_error l e =
      if l.awaited
      then record l { reports = l.reports ++ (idx, err e) ∷ []; state = ended }
      else record l { state = ended }

  -- What follows the creation; without a receiver of the report the services are dropped.
  unfoldable pub on_creation : Launch → Created → Outcome Launch
  on_creation l (err e) = done (report_error l e)
  on_creation l (ok services) =
      if l.awaited
      then (wrap_worker_services services >>= begun l)
      else done (record l { state = ended })

  abbrev pub poll_creation :
      Launch → Fut Created × Poll Created → (Launch → Outcome Launch) → Outcome Launch
  poll_creation l (fut, pending) other = other (record l { state = creating fut })
  poll_creation l (fut, ready created) other = on_creation l created

  abbrev pub poll_stop : Launch → List Stop → (Launch → Outcome Launch) → Outcome Launch
  poll_stop l [] other = other l
  poll_stop l (s ∷ rest) other = done (cancelled l s rest)

  -- A poll of the thread while it creates the services: `create_services` and what follows it.
  abbrev pub select : Bool → Launch → Fut Created → Outcome Launch
  select true l fut = poll_stop l l.stop_rx λ l'. poll_creation l' (poll_fut fut) done
  select false l fut = poll_creation l (poll_fut fut) λ l'. poll_stop l' l.stop_rx done

  abbrev pub in_launch_state : Bool → Launch → LaunchState → Outcome Launch
  in_launch_state stop_first l (creating fut) = select stop_first l fut
  in_launch_state stop_first l (working w) = done l
  in_launch_state stop_first l ended = done l

  unfoldable pub poll_launch : Bool → Launch → Outcome Launch
  poll_launch stop_first l = in_launch_state stop_first l l.state

-- What can happen to a starting worker: a poll, a request to stop, a connection, and the end of those
-- who await the reports. Who sends to a thread that has ended sends nothing.
pub data LaunchAct : Type 0 where
  polled : Bool → LaunchAct
  requested : Stop → LaunchAct
  sent_to : Conn → LaunchAct
  abandoned : LaunchAct

abbrev pub request : Launch → Stop → LaunchState → Launch
request l s (creating fut) = record l { stop_rx = l.stop_rx ++ s ∷ [] }
request l s (working w) = record l { state = working (record w { stop_rx = w.stop_rx ++ s ∷ [] }) }
request l s ended = l

abbrev pub connection : Launch → Conn → LaunchState → Launch
connection l c (creating fut) = record l { conn_rx = l.conn_rx ++ c ∷ [] }
connection l c (working w) = record l {
  state = working (record w { conn_rx = w.conn_rx ++ c ∷ [] });
}
connection l c ended = l

module _ (idx : ℕ) (config : ServerWorkerConfig) where
  abbrev pub launch_act : Launch → LaunchAct → Outcome Launch
  launch_act l (polled stop_first) = poll_launch idx config stop_first l
  launch_act l (requested s) = done (request l s l.state)
  launch_act l (sent_to c) = done (connection l c l.state)
  launch_act l abandoned = done (record l { awaited = false })

  abbrev pub launch_acts : Launch → List LaunchAct → Outcome Launch
  launch_acts l [] = done l
  launch_acts l (h ∷ hs) = launch_act l h >>= λ l'. launch_acts l' hs
