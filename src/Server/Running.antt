-- ===== src/Server/Running.antt =====
-- actix-server/src/server.rs: the events of a server and its loop over them; handle.rs: the commands
-- of a handle. The channel of commands is a queue with a flag that tells whether a sender is left, and
-- a signal's future is given with its kind.
pub mod Queue
pub mod Ends
mod Tests
use actix_net.Prelude.{
  ℕ, zero, suc, Bool, true, false, List, [], ◌∷◌, ◌++◌, Option, none, some, Poll, pending, ready,
  if◌then◌else◌,
}
use actix_net.Prelude.Panics.{Outcome, done, panicked, out_of_fuel, ◌>>=◌}
use actix_net.Prelude.Futures.{Fut, poll_fut}
use actix_net.Server.Handle.{WorkerHandle}
use actix_net.Server.Commands.{
  SignalKind, StopCommand, ServerCommand, WorkerHandleServer, ServerInner, map_signal, Handling,
  begun, poll_handling, drop_server,
}

-- `ServerEventMultiplexer`.
pub record Multiplexer : Type 0 where
  pub cmd_rx : List ServerCommand
  pub senders : Bool
  pub signal_fut : Option (Fut SignalKind)

abbrev pub received : Multiplexer → List ServerCommand → Multiplexer × Poll (Option ServerCommand)
received mux [] = (mux, if mux.senders then pending else ready none)
received mux (cmd ∷ rest) = (record mux { cmd_rx = rest }, ready (some cmd))

abbrev pub poll_recv : Multiplexer → Multiplexer × Poll (Option ServerCommand)
poll_recv mux = received mux mux.cmd_rx

abbrev pub on_signal :
    Multiplexer → Fut SignalKind × Poll SignalKind → Multiplexer × Poll (Option ServerCommand)
on_signal mux (fut, ready signal) =
    (record mux { signal_fut = none }, ready (some (map_signal signal)))
on_signal mux (fut, pending) = poll_recv (record mux { signal_fut = some fut })

abbrev pub unless_signal :
    Multiplexer → Option (Fut SignalKind) → Multiplexer × Poll (Option ServerCommand)
unless_signal mux none = poll_recv mux
unless_signal mux (some fut) = on_signal mux (poll_fut fut)

-- `ServerEventMultiplexer::poll_next`.
unfoldable pub poll_next : Multiplexer → Multiplexer × Poll (Option ServerCommand)
poll_next mux = unless_signal mux mux.signal_fut

-- `ServerInner::run` waits for an event, or for the handling of a command.
pub data Running : Type 0 where
  idle : ServerInner → Multiplexer → Running
  handling : Handling → Multiplexer → Running

abbrev pub RunningPoll : Type 0
RunningPoll = Outcome (Running × Poll ServerInner)

module _ (stop_answer : ℕ → Fut Bool) (sleep : Fut (Unit {0}))
    (start : ℕ → Option (WorkerHandle × WorkerHandleServer)) where
  abbrev pub on_event :
      (Running → RunningPoll)
      → ServerInner
      → Multiplexer × Poll (Option ServerCommand)
      → RunningPoll
  on_event again s (mux, pending) = done (idle s mux, pending)
  on_event again s (mux, ready none) = done (idle s mux, ready (drop_server s))
  on_event again s (mux, ready (some cmd)) = again (handling (begun s cmd) mux)

  abbrev pub on_handled :
      (Running → RunningPoll) → Multiplexer → Handling × Poll ServerInner → RunningPoll
  on_handled again mux (h, pending) = done (handling h mux, pending)
  on_handled again mux (h, ready s) =
      if s.stopping then done (idle s mux, ready (drop_server s)) else again (idle s mux)

  -- `ServerInner::run` after `run_sync`, with fuel for its loop; at its end the server is dropped.
  unfoldable pub poll_server : ℕ → Running → RunningPoll
  poll_server zero r = out_of_fuel
  poll_server (suc n) (idle s mux) = on_event (λ r. poll_server n r) s (poll_next mux)
  poll_server (suc n) (handling h mux) =
      poll_handling stop_answer sleep start h >>= on_handled (λ r. poll_server n r) mux

-- The methods of `ServerHandle`: a command that is sent, and who waits for its answer.
unfoldable pub send_command : Multiplexer → ServerCommand → Multiplexer
send_command mux cmd = record mux { cmd_rx = mux.cmd_rx ++ cmd ∷ [] }

unfoldable pub worker_faulted : Multiplexer → ℕ → Multiplexer
unfolding send_command
worker_faulted mux idx = send_command mux (ServerCommand.worker_faulted idx)

unfoldable pub pause : Multiplexer → ℕ → Multiplexer
unfolding send_command
pause mux tx = send_command mux (ServerCommand.pause tx)

unfoldable pub resume : Multiplexer → ℕ → Multiplexer
unfolding send_command
resume mux tx = send_command mux (ServerCommand.resume tx)

unfoldable pub stop : Multiplexer → Bool → ℕ → Multiplexer
unfolding send_command
stop mux graceful tx = send_command mux (
    ServerCommand.stop
      (record { graceful = graceful; completion = some tx; force_system_stop = false }))
