-- ===== src/Server/Builder.antt =====
-- actix-server/src/builder.rs: the server's builder, its settings, and the services bound to it. The
-- configuration of the workers is worker.rs's. Seconds become milliseconds; the command channel and
-- the sender of the graceful shutdown have no content here.
pub mod Binding
pub mod Tokens
mod Tests
use actix_net.Prelude.{
  ℕ, ◌+◌, ◌*◌, ◌/◌, min, max, Bool, true, false, List, [], ◌∷◌, ◌++◌, Option, none, some, ◌==◌, leb,
  if◌then◌else◌, is_empty,
}
use actix_net.Prelude.Panics.{Outcome, done, panicked}
use actix_net.Prelude.Futures.{Fut}
use actix_net.Server.Availability.{max_workers}
use actix_net.Server.Sockets.{MpTcp, disabled, MioListener}

-- A text is the list of its code points.
abbrev pub Name : Type 0
Name = List ℕ

-- `StreamNewService`, whose `inner` is the user's factory.
pub record StreamNewService (F A : Type 0) : Type 0 where
  pub name : Name
  pub inner : F
  pub token : ℕ
  pub addr : A

pub record ServerWorkerConfig : Type 0 where
  pub shutdown_timeout : ℕ
  pub max_blocking_threads : ℕ
  pub max_concurrent_connections : ℕ

abbrev pub default_blocking_thread_budget : ℕ
default_blocking_thread_budget = 512

-- `available_parallelism().map_or(2, ..)`.
abbrev pub parallelism : Option ℕ → ℕ
parallelism none = 2
parallelism (some n) = n

-- `ServerWorkerConfig::default`, by the detected parallelism.
unfoldable pub default_config : Option ℕ → ServerWorkerConfig
default_config detected = record {
  shutdown_timeout = 30 * 1000;
  max_blocking_threads = max (default_blocking_thread_budget / parallelism detected) 1;
  max_concurrent_connections = 25600;
}

pub record ServerBuilder (F A L : Type 0) : Type 0 where
  pub threads : ℕ
  pub token : ℕ
  pub backlog : ℕ
  pub factories : List (StreamNewService F A)
  pub sockets : List (ℕ × Name × MioListener L)
  pub mptcp : MpTcp
  pub exit : Bool
  pub listen_os_signals : Bool
  pub shutdown_signal : Option (Fut (Unit {0}))
  pub worker_config : ServerWorkerConfig

module _ {F A L : Type 0} where
  -- `ServerBuilder::with_default_workers`.
  unfoldable pub with_default_workers : Option ℕ → ℕ → ServerBuilder F A L
  with_default_workers detected threads = record {
    threads = min threads max_workers;
    token = 0;
    factories = [];
    sockets = [];
    backlog = 2048;
    mptcp = disabled;
    exit = false;
    listen_os_signals = true;
    shutdown_signal = none;
    worker_config = default_config detected;
  }

  -- `ServerBuilder::new`.
  unfoldable pub new : Option ℕ → ServerBuilder F A L
  new detected = with_default_workers detected (parallelism detected)

  -- `ServerBuilder::workers`, which panics at zero and above the maximum.
  unfoldable pub workers : ServerBuilder F A L → ℕ → Outcome (ServerBuilder F A L)
  workers b num =
      if num == 0
      then panicked
      else if leb num max_workers
      then done (record b { threads = num })
      else panicked

  unfoldable pub worker_max_blocking_threads : ServerBuilder F A L → ℕ → ServerBuilder F A L
  worker_max_blocking_threads b num = record b {
    worker_config = record (b.worker_config) { max_blocking_threads = num };
  }

  unfoldable pub set_backlog : ServerBuilder F A L → ℕ → ServerBuilder F A L
  set_backlog b num = record b { backlog = num }

  unfoldable pub set_mptcp : ServerBuilder F A L → MpTcp → ServerBuilder F A L
  set_mptcp b pref = record b { mptcp = pref }

  -- `ServerBuilder::max_concurrent_connections`, which panics at zero.
  unfoldable pub max_concurrent_connections :
      ServerBuilder F A L → ℕ → Outcome (ServerBuilder F A L)
  max_concurrent_connections b num =
      if num == 0
      then panicked
      else done (record b {
        worker_config = record (b.worker_config) { max_concurrent_connections = num };
      })

  unfoldable pub system_exit : ServerBuilder F A L → ServerBuilder F A L
  system_exit b = record b { exit = true }

  unfoldable pub disable_signals : ServerBuilder F A L → ServerBuilder F A L
  disable_signals b = record b { listen_os_signals = false }

  unfoldable pub set_shutdown_signal : ServerBuilder F A L → Fut (Unit {0}) → ServerBuilder F A L
  set_shutdown_signal b signal = record b { shutdown_signal = some signal }

  unfoldable pub set_shutdown_timeout : ServerBuilder F A L → ℕ → ServerBuilder F A L
  set_shutdown_timeout b sec = record b {
    worker_config = record (b.worker_config) { shutdown_timeout = sec * 1000 };
  }

  -- `ServerBuilder::next_token`.
  unfoldable pub next_token : ServerBuilder F A L → ServerBuilder F A L × ℕ
  next_token b = (record b { token = b.token + 1 }, b.token)

  -- `ServerBuilder::run`, which panics without a socket; the server starts with the builder.
  unfoldable pub run : ServerBuilder F A L → Outcome (ServerBuilder F A L)
  run b = if is_empty b.sockets then panicked else done b
