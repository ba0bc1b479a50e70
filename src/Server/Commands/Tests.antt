-- ===== src/Server/Commands/Tests.antt =====
-- Runs of the server's commands (actix-server/src/server.rs) at concrete inputs.
use actix_net.Prelude.{◌≡◌, refl, true, false, [], ◌∷◌, none, some}
use actix_net.Server.Commands.{
  StopCommand, ServerCommand, ServerInner, SignalKind, map_signal, drop_server,
}
use actix_net.Server.Commands.Stops.{stopped}

abbrev server : ServerInner
server = record {
  worker_handles = record { idx = 0; stop_tx = 7 } ∷ record { idx = 1; stop_tx = 8 } ∷ [];
  accept_handle = true;
  system_stop = false;
  stopping = false;
  effects = [];
}

abbrev graceful_stop : StopCommand
graceful_stop = record { graceful = true; completion = some 5; force_system_stop = true }

map_signal_test :
    map_signal SignalKind.os_int
    ≡ ServerCommand.stop (record { graceful = false; completion = none; force_system_stop = true })
unfolding map_signal
map_signal_test = refl

-- A server that has been stopped does nothing more when it is dropped.
drop_server_test : drop_server (stopped server graceful_stop) ≡ stopped server graceful_stop
unfolding drop_server
drop_server_test = refl
