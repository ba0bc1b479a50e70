-- ===== src/Tls/Tcp.antt =====
-- actix-tls/src/connect/tcp.rs: a connection to the first address that takes it.
use actix_net.Prelude.{ℕ, List, [], ◌∷◌, Option, none, some, Result, ok, err, Poll, pending, ready}
use actix_net.Prelude.Panics.{Outcome, done, panicked}
use actix_net.Prelude.Futures.{Fut, resolved, poll_fut}
use actix_net.Tls.Host.{Host}
use actix_net.Tls.Info.{
  IpAddr, v4, v6, SocketAddr, ConnectAddrs, one, multi, ConnectInfo, info_port, unwrap_or,
}
use actix_net.Tls.Resolver.{ConnectError, io}

-- What the code calls of tokio's sockets.
pub record Net {ℓ} (Socket Stream E : Type ℓ) : Type ℓ where
  pub new_v4 : Result E Socket
  pub new_v6 : Result E Socket
  pub bind : Socket → SocketAddr → Result E Socket
  pub socket_connect : Socket → SocketAddr → Fut (Result E Stream)
  pub stream_connect : SocketAddr → Fut (Result E Stream)

pub record TcpResponse {ℓ} (R Stream E : Type ℓ) : Type ℓ where
  pub req : Option R
  pub port : ℕ
  pub local_addr : Option IpAddr
  pub addrs : Option (List SocketAddr)
  pub stream : Fut (Result E Stream)

pub data TcpConnectorFut {ℓ} (R Stream E : Type ℓ) : Type ℓ where
  response : TcpResponse R Stream E → TcpConnectorFut R Stream E
  error : Option (ConnectError E) → TcpConnectorFut R Stream E

abbrev pub Connected {ℓ} : Type ℓ → Type ℓ → Type ℓ → Type ℓ
Connected R Stream E = Result (ConnectError E) (R × Stream)

module _ {ℓ} {Socket Stream E : Type ℓ} (net : Net Socket Stream E) where
  abbrev pub bind_connect : Result E Socket → SocketAddr → SocketAddr → Fut (Result E Stream)
  bind_connect (err e) local addr = resolved (err e)
  bind_connect (ok socket) local addr = elim (net.bind socket local) [
    | err e ↦ resolved (err e)
    | ok bound ↦ net.socket_connect bound addr
  ]

  -- The function `connect`: a local address is bound with any port.
  unfoldable pub connect : SocketAddr → Option IpAddr → Fut (Result E Stream)
  connect addr none = net.stream_connect addr
  connect addr (some (v4 a)) = bind_connect net.new_v4 (record { ip = v4 a; port = 0 }) addr
  connect addr (some (v6 a)) = bind_connect net.new_v6 (record { ip = v6 a; port = 0 }) addr

  abbrev pub start :
      {R : Type ℓ}
      → R
      → ℕ
      → Option IpAddr
      → SocketAddr
      → Option (List SocketAddr)
      → TcpConnectorFut R Stream E
  start req port local_addr addr addrs = response (record {
    req = some req;
    port = port;
    local_addr = local_addr;
    addrs = addrs;
    stream = connect addr local_addr;
  })

  -- `TcpConnectorFut::new`.
  unfoldable pub new_tcp :
      {R : Type ℓ} → R → ℕ → Option IpAddr → ConnectAddrs → Outcome (TcpConnectorFut R Stream E)
  new_tcp req port local_addr ConnectAddrs.unresolved = done (error (some ConnectError.unresolved))
  new_tcp req port local_addr (one addr) = done (start req port local_addr addr none)
  new_tcp req port local_addr (multi []) = panicked
  new_tcp req port local_addr (multi (addr ∷ addrs)) =
      done (start req port local_addr addr (some addrs))

  -- `TcpConnectorService::call`.
  unfoldable pub call_tcp :
      {R : Type ℓ} → Host R → ConnectInfo R → Outcome (TcpConnectorFut R Stream E)
  unfolding new_tcp info_port
  call_tcp host req = new_tcp req.request (info_port host req) req.local_addr req.addr

  abbrev pub connected :
      {R : Type ℓ}
      → TcpResponse R Stream E
      → Stream
      → Option R
      → Outcome (TcpConnectorFut R Stream E × Poll (Connected R Stream E))
  connected r sock none = panicked
  connected r sock (some req) = done (response (record r { req = none }), ready (ok (req, sock)))

  -- The body of the loop; `retry` is what an error of the connection leads to.
  abbrev pub on_stream :
      {R : Type ℓ}
      → TcpResponse R Stream E
      → (TcpResponse R Stream E
          → E
          → Outcome (TcpConnectorFut R Stream E × Poll (Connected R Stream E)))
      → Fut (Result E Stream) × Poll (Result E Stream)
      → Outcome (TcpConnectorFut R Stream E × Poll (Connected R Stream E))
  on_stream r retry (stream, pending) = done (response (record r { stream = stream }), pending)
  on_stream r retry (stream, ready (ok sock)) = connected (record r { stream = stream }) sock r.req
  on_stream r retry (stream, ready (err e)) = retry (record r { stream = stream }) e

  -- The loop, by recursion on the addresses that are left.
  unfoldable pub poll_from :
      {R : Type ℓ}
      → List SocketAddr
      → TcpResponse R Stream E
      → Outcome (TcpConnectorFut R Stream E × Poll (Connected R Stream E))
  unfolding connect
  poll_from [] r = on_stream r (λ r' e. done (response r', ready (err (io e)))) (poll_fut r.stream)
  poll_from (addr ∷ addrs) r =
      on_stream r
        (λ r' e.
          poll_from addrs (record r' { addrs = some addrs; stream = connect addr r'.local_addr }))
        (poll_fut r.stream)

  -- `TcpConnectorFut::poll`.
  unfoldable pub poll_tcp :
      {R : Type ℓ}
      → TcpConnectorFut R Stream E
      → Outcome (TcpConnectorFut R Stream E × Poll (Connected R Stream E))
  unfolding poll_from
  poll_tcp (error none) = panicked
  poll_tcp (error (some e)) = done (error none, ready (err e))
  poll_tcp (response r) = poll_from (unwrap_or r.addrs []) r
