-- ===== src/Server/Running/Tests.antt =====
-- Runs of a whole server (actix-server/src/server.rs) at concrete inputs.
use actix_net.Prelude.{
  ℕ, suc, ◌==◌, ◌≡◌, refl, Bool, true, false, List, [], ◌∷◌, ◌++◌, none, some, Option,
  if◌then◌else◌,
}
use actix_net.Prelude.Panics.{done}
use actix_net.Prelude.Futures.{Fut, resolved, later, after_polls}
use actix_net.Prelude.Tasks.{run, await}
use actix_net.Server.Handle.{WorkerHandle}
use actix_net.Server.Accept.{WakerInterest}
use actix_net.Server.Commands.{
  StopCommand, ServerCommand, WorkerHandleServer, ServerInner, SignalKind, emit, woke, answered,
}
use actix_net.Server.Running.{idle, poll_server}
use actix_net.Server.Running.Queue.{rounds, queue}
use actix_net.Server.Running.Ends.{dropped, stop_fut, signal_stop, run-server, run-signal}

abbrev stop_answer : ℕ → Fut Bool
stop_answer tx = if tx == 8 then after_polls 2 true else after_polls 0 true

abbrev start : ℕ → Option (WorkerHandle × WorkerHandleServer)
start idx = none

abbrev sleep : Fut (Unit {0})
sleep = later (resolved tt)

abbrev server : ServerInner
server = record {
  worker_handles = record { idx = 0; stop_tx = 7 } ∷ record { idx = 1; stop_tx = 8 } ∷ [];
  accept_handle = true;
  system_stop = false;
  stopping = false;
  effects = [];
}

abbrev first_commands : List ServerCommand
first_commands = ServerCommand.pause 3 ∷ ServerCommand.worker_faulted 1 ∷ []

abbrev paused_server : ServerInner
paused_server = emit server (woke WakerInterest.pause ∷ answered 3 ∷ [])

abbrev graceful_stop : StopCommand
graceful_stop = record { graceful = true; completion = some 5; force_system_stop = true }

abbrev delays : List (ℕ × Bool)
delays = (0, true) ∷ (2, true) ∷ []

run-server_example :
    run (poll_server stop_answer sleep start (suc (rounds first_commands 1))) 5 (
      idle server (
        queue
          (first_commands ++ ServerCommand.stop graceful_stop ∷ ServerCommand.resume 4 ∷ [])
          true))
    ≡ done (await 5 (dropped (stop_fut stop_answer sleep start paused_server graceful_stop delays)))
run-server_example =
    run-server stop_answer sleep start 0 5 server paused_server first_commands
      (ServerCommand.resume 4 ∷ []) graceful_stop true delays refl refl refl refl

run-signal_example :
    run (poll_server stop_answer sleep start 2) 3 (
      idle server (record {
        cmd_rx = first_commands;
        senders = true;
        signal_fut = some (resolved SignalKind.os_term);
      }))
    ≡ done (
        await 3 (
          dropped
            (stop_fut stop_answer sleep start server (signal_stop SignalKind.os_term) delays)))
run-signal_example =
    run-signal stop_answer sleep start 0 3 server first_commands SignalKind.os_term true delays refl
      refl
