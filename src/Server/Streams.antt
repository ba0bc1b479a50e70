-- ===== src/Server/Streams.antt =====
-- actix-server/src/service.rs: the service that turns a mio stream into one of tokio's and spawns its
-- task; and the streams of socket.rs, on Unix. The conversion of a descriptor is a parameter; what
-- becomes of the connection's guard is told with the answer.
use actix_net.Prelude.{Option, none, some, Result, ok, err, Poll, pending, ready}
use actix_net.Prelude.Panics.{Outcome, done, panicked}
use actix_net.Prelude.Futures.{Fut}
use actix_net.Service.{Service}
use actix_net.Server.Sockets.{MioListener, tcp_listener, uds_listener}

-- `MioStream`.
pub data MioStream (K : Type 0) : Type 0 where
  tcp_stream : K → MioStream K
  uds_stream : K → MioStream K

-- `SocketAddr`.
pub data SocketAddr (A : Type 0) : Type 0 where
  unknown : SocketAddr A
  tcp_addr : A → SocketAddr A
  uds_addr : A → SocketAddr A

module _ {K L A E : Type 0} (local_addr : L → Result E A) (accept : L → Result E (K × A)) where
  abbrev pub addr_or_unknown : (A → SocketAddr A) → Result E A → SocketAddr A
  addr_or_unknown f (ok a) = f a
  addr_or_unknown f (err e) = unknown

  -- `MioListener::local_addr`.
  unfoldable pub listener_addr : MioListener L → SocketAddr A
  listener_addr (tcp_listener lst) = addr_or_unknown tcp_addr (local_addr lst)
  listener_addr (uds_listener lst) = addr_or_unknown uds_addr (local_addr lst)

  abbrev pub stream_of : (K → MioStream K) → Result E (K × A) → Result E (MioStream K)
  stream_of f (ok (stream, a)) = ok (f stream)
  stream_of f (err e) = err e

  -- `MioListener::accept`.
  unfoldable pub accept_stream : MioListener L → Result E (MioStream K)
  accept_stream (tcp_listener lst) = stream_of tcp_stream (accept lst)
  accept_stream (uds_listener lst) = stream_of uds_stream (accept lst)

module _ {K I E : Type 0} (from_std : K → Result E I) where
  -- `FromStream` for `TcpStream` and for `UnixStream`, which panics for the other kind.
  unfoldable pub tcp_from_mio : MioStream K → Outcome (Result E I)
  tcp_from_mio (tcp_stream mio) = done (from_std mio)
  tcp_from_mio (uds_stream mio) = panicked

  unfoldable pub uds_from_mio : MioStream K → Outcome (Result E I)
  uds_from_mio (tcp_stream mio) = panicked
  uds_from_mio (uds_stream mio) = done (from_std mio)

-- The task that `StreamService::call` spawns: the service's future, and the guard until its end.
pub record ConnectionTask (A E G : Type 0) : Type 0 where
  pub fut : Fut (Result E A)
  pub guard : Option G

abbrev pub unit_error :
    {E : Type 0} → Poll (Result E (Unit {0})) → Poll (Result (Unit {0}) (Unit {0}))
unit_error pending = pending
unit_error (ready (ok x)) = ready (ok tt)
unit_error (ready (err e)) = ready (err tt)

abbrev pub StreamCall : (S A E G : Type 0) → Type 0
StreamCall S A E G = Outcome (S × Result (Unit {0}) (Unit {0}) × Option (ConnectionTask A E G))

module _ {S I A E : Type 0} (a : Service S I A E) where
  -- `StreamService::poll_ready`.
  unfoldable pub poll_ready_stream : S → S × Poll (Result (Unit {0}) (Unit {0}))
  poll_ready_stream s = let (s', answer) = a.poll_ready s in (s', unit_error answer)

module _ {S I A E X G : Type 0} (a : Service S I A E) where
  abbrev pub on_stream : S → G → Outcome (Result X I) → StreamCall S A E G
  on_stream s guard panicked = panicked
  on_stream s guard Outcome.out_of_fuel = Outcome.out_of_fuel
  on_stream s guard (done (err e)) = done (s, err tt, none)
  on_stream s guard (done (ok stream)) =
      let (s', fut) = a.call s stream in
      done (s', ok tt, some (record { fut = fut; guard = some guard }))

  -- `StreamService::call`, given the conversion of the request's stream; without a task the guard is
  -- dropped.
  unfoldable pub call_stream : S → G → Outcome (Result X I) → StreamCall S A E G
  call_stream s guard converted = on_stream s guard converted
