-- ===== src/Server/Sockets.antt =====
-- actix-server/src/socket.rs: a listener of the operating system, and how a TCP one is made. The calls
-- of the operating system are the fields of `Net`; a call that configures a socket gives the socket
-- after it.
use actix_net.Prelude.{ℕ, Bool, Result, ok, err}
use actix_net.Prelude.Results.{◌>>=◌}

-- `MpTcp`.
pub data MpTcp : Type 0 where
  disabled tcp_fallback no_fallback : MpTcp

pub data Protocol : Type 0 where
  tcp mptcp : Protocol

-- What the code calls of socket2, mio and the standard library. `A` are addresses, `L` sockets and
-- listeners, `P` paths and `E` errors.
pub record Net (A L P E : Type 0) : Type 0 where
  pub new_socket : A → Protocol → Result E L
  pub set_reuse_address : L → Result E L
  pub set_nonblocking : L → Result E L
  pub bind_socket : A → L → Result E L
  pub listen_socket : ℕ → L → Result E L
  pub local_addr : L → Result E A
  pub remove_file : P → Result E (Unit {0})
  pub is_not_found : E → Bool
  pub bind_unix : P → Result E L
  pub cannot_bind : E
  pub uds_addr : A

-- `MioListener` and `MioStream`.
pub data MioListener (L : Type 0) : Type 0 where
  tcp_listener : L → MioListener L
  uds_listener : L → MioListener L

-- The protocol on Linux.
abbrev pub protocol_of : MpTcp → Protocol
protocol_of disabled = tcp
protocol_of tcp_fallback = mptcp
protocol_of no_fallback = mptcp

module _ {A L P E : Type 0} (net : Net A L P E) where
  abbrev pub or_fallback : A → MpTcp → Result E L → Result E L
  or_fallback addr pref (ok sock) = ok sock
  or_fallback addr tcp_fallback (err e) = net.new_socket addr tcp
  or_fallback addr disabled (err e) = err e
  or_fallback addr no_fallback (err e) = err e

  -- `create_mio_tcp_listener`; the cast of the backlog to `i32` keeps its bits.
  unfoldable pub create_mio_tcp_listener : A → ℕ → MpTcp → Result E L
  create_mio_tcp_listener addr backlog pref = do
    s0 ← or_fallback addr pref (net.new_socket addr (protocol_of pref))
    s1 ← net.set_reuse_address s0
    s2 ← net.set_nonblocking s1
    s3 ← net.bind_socket addr s2
    net.listen_socket backlog s3
