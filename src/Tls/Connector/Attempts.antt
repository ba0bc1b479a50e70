-- ===== src/Tls/Connector/Attempts.antt =====
-- The connection against its description (actix-tls/src/connect/tcp.rs).
use actix_net.Prelude.{
  ℕ, ◌≡◌, refl, List, [], ◌∷◌, Option, none, some, Result, ok, err, arith, Poll,
}
use actix_net.Prelude.Panics.{Outcome, done}
use actix_net.Prelude.Futures.{Fut, resolved, later, never}
use actix_net.Prelude.Tasks.{Steps}
use actix_net.Tls.Info.{
  IpAddr, SocketAddr, ConnectAddrs, one, multi, ConnectInfo, info_port, unwrap_or,
}
use actix_net.Tls.Tcp.{
  TcpResponse, TcpConnectorFut, response, error, Connected, connect, new_tcp, call_tcp, poll_from,
  poll_tcp,
}
use actix_net.Tls.Connector.{Env}
use actix_net.Tls.Connector.Meaning.{listed, IsNormal, attempts, first_success}

module _ {ℓ} {R Socket Stream E : Type ℓ} (env : Env R Socket Stream E) where
  abbrev pub response_worth :
      TcpResponse R Stream E → Option R → Option (Fut (Connected R Stream E))
  response_worth r none = none
  response_worth r (some req) = some (attempts env req r.local_addr (unwrap_or r.addrs []) r.stream)

  -- What a state of the connection is worth.
  abbrev pub tcp_worth : TcpConnectorFut R Stream E → Option (Fut (Connected R Stream E))
  tcp_worth (error none) = none
  tcp_worth (error (some e)) = some (resolved (err e))
  tcp_worth (response r) = response_worth r r.req

  abbrev StepsTo :
      Outcome (TcpConnectorFut R Stream E × Poll (Connected R Stream E))
      → Fut (Connected R Stream E)
      → Type ℓ
  StepsTo o f = Steps (poll_tcp env.net) tcp_worth o (some f)

  -- The loop over the addresses that are left.
  poll_from-Steps :
      (req : R) (port : ℕ) (local_addr : Option IpAddr) (addrs : Option (List SocketAddr))
      (xs : List SocketAddr) (stream : Fut (Result E Stream))
      → unwrap_or addrs [] ≡ xs
      → StepsTo
          (poll_from env.net xs (record {
            req = some req;
            port = port;
            local_addr = local_addr;
            addrs = addrs;
            stream = stream;
          }))
          (attempts env req local_addr xs stream)
  unfolding poll_from
  poll_from-Steps req port local addrs [] (resolved (ok sock)) a = (_, refl)
  poll_from-Steps req port local addrs [] (resolved (err x)) a = (_, refl)
  poll_from-Steps req port local addrs [] (later g) a = (_, refl, rw a refl)
  poll_from-Steps req port local addrs [] never a = (_, refl, rw a refl)
  poll_from-Steps req port local addrs (x ∷ xs) (resolved (ok sock)) a = (_, refl)
  poll_from-Steps req port local addrs (x ∷ xs) (resolved (err e)) a =
      poll_from-Steps req port local (some xs) xs (connect env.net x local) refl
  poll_from-Steps req port local addrs (x ∷ xs) (later g) a = (_, refl, rw a refl)
  poll_from-Steps req port local addrs (x ∷ xs) never a = (_, refl, rw a refl)

  pub poll_tcp-Steps :
      (s : TcpConnectorFut R Stream E)
      → Steps (poll_tcp env.net) tcp_worth (poll_tcp env.net s) (tcp_worth s)
  unfolding poll_tcp
  poll_tcp-Steps (error none) = tt
  poll_tcp-Steps (error (some e)) = (_, refl)
  poll_tcp-Steps (response r) = by_req r.req r.port r.local_addr r.addrs r.stream
    where
      by_req :
          (q : Option R) (port : ℕ) (local_addr : Option IpAddr) (addrs : Option (List SocketAddr))
          (stream : Fut (Result E Stream))
          → let r' : TcpResponse R Stream E = record {
            req = q;
            port = port;
            local_addr = local_addr;
            addrs = addrs;
            stream = stream;
          } in
            Steps
              (poll_tcp env.net)
              tcp_worth
              (poll_from env.net (unwrap_or addrs []) r')
              (response_worth r' q)
      by_req none port local addrs stream = tt
      by_req (some req) port local addrs stream =
          poll_from-Steps req port local addrs (unwrap_or addrs []) stream refl

  new_tcp-first_success :
      (req : R) (port : ℕ) (local_addr : Option IpAddr) (addr : ConnectAddrs)
      → IsNormal addr
      → (t : TcpConnectorFut R Stream E) × (new_tcp env.net req port local_addr addr ≡ done t)
        × (tcp_worth t ≡ some (first_success env req local_addr (listed addr)))
  unfolding new_tcp
  new_tcp-first_success req port local ConnectAddrs.unresolved n = (_, refl, refl)
  new_tcp-first_success req port local (one a) n = (_, refl, refl)
  new_tcp-first_success req port local (multi []) n = absurd (omega (arith, n))
  new_tcp-first_success req port local (multi (a ∷ xs)) n = (_, refl, refl)

  -- A call with addresses in the form that the operations make begins with the first of them.
  pub call_tcp-first_success :
      (c : ConnectInfo R)
      → IsNormal c.addr
      → (t : TcpConnectorFut R Stream E) × (call_tcp env.net env.host c ≡ done t)
        × (tcp_worth t ≡ some (first_success env c.request c.local_addr (listed c.addr)))
  unfolding call_tcp
  call_tcp-first_success c n =
      new_tcp-first_success c.request (info_port env.host c) c.local_addr c.addr n
