-- ===== src/Tls/Connector.antt =====
-- actix-tls/src/connect/connector.rs: the resolver and then the connection.
pub mod Meaning
pub mod Lookups
pub mod Attempts
pub mod Runs
use actix_net.Prelude.{ℕ, zero, suc, Option, none, some, Result, ok, err, Poll, pending, ready}
use actix_net.Prelude.Panics.{Outcome, done, panicked, out_of_fuel, ◌>>=◌}
use actix_net.Tls.Host.{Text, Host}
use actix_net.Tls.Info.{IpAddr, ConnectInfo}
use actix_net.Tls.Resolver.{
  ConnectError, DefaultLookup, ResolverKind, ResolverFut, Resolved, call_resolver, poll_resolver,
}
use actix_net.Tls.Tcp.{Net, TcpConnectorFut, Connected, call_tcp, poll_tcp}

pub data ConnectFut {ℓ} (R Stream E : Type ℓ) : Type ℓ where
  resolve : ResolverFut R E → ConnectFut R Stream E
  connecting : TcpConnectorFut R Stream E → ConnectFut R Stream E

pub data ConnectFutState {ℓ} (R Stream : Type ℓ) : Type ℓ where
  was_resolved : ConnectInfo R → ConnectFutState R Stream
  was_connected : R × Stream → ConnectFutState R Stream

-- `map_ok` on the answer of a poll.
abbrev pub map_ok {ℓ κ ι} :
    {E : Type ℓ} {A : Type κ} {B : Type ι} → (A → B) → Poll (Result E A) → Poll (Result E B)
map_ok f pending = pending
map_ok f (ready (ok a)) = ready (ok (f a))
map_ok f (ready (err e)) = ready (err e)

-- What a connector is made of: the request's host, the lookups, and the sockets.
pub record Env {ℓ} (R Socket Stream E : Type ℓ) : Type ℓ where
  pub host : Host R
  pub parse_ip : Text → Option IpAddr
  pub to_socket_addrs : Text → DefaultLookup E
  pub kind : ResolverKind E
  pub net : Net Socket Stream E

module _ {ℓ} {R Socket Stream E : Type ℓ} (env : Env R Socket Stream E) where
  -- `ConnectorService::call`.
  unfoldable pub call_connector : ConnectInfo R → ConnectFut R Stream E
  unfolding call_resolver
  call_connector req =
      resolve (call_resolver env.host env.parse_ip env.to_socket_addrs env.kind req)

  -- `ConnectFut::poll_connect`.
  unfoldable pub poll_connect :
      ConnectFut R Stream E
      → Outcome (ConnectFut R Stream E × Poll (Result (ConnectError E) (ConnectFutState R Stream)))
  unfolding poll_resolver poll_tcp
  poll_connect (resolve fut) =
      poll_resolver fut >>= λ (fut', answer). done (resolve fut', map_ok was_resolved answer)
  poll_connect (connecting fut) =
      poll_tcp env.net fut >>= λ (fut', answer). done (connecting fut', map_ok was_connected answer)

  abbrev pub on_state :
      (ConnectFut R Stream E → Outcome (ConnectFut R Stream E × Poll (Connected R Stream E)))
      → ConnectFut R Stream E × Poll (Result (ConnectError E) (ConnectFutState R Stream))
      → Outcome (ConnectFut R Stream E × Poll (Connected R Stream E))
  on_state again (fut, pending) = done (fut, pending)
  on_state again (fut, ready (err e)) = done (fut, ready (err e))
  on_state again (fut, ready (ok (was_resolved req))) =
      call_tcp env.net env.host req >>= λ tcp. again (connecting tcp)
  on_state again (fut, ready (ok (was_connected c))) = done (fut, ready (ok c))

  -- `ConnectServiceResponse::poll`, with fuel for its loop.
  unfoldable pub poll_response :
      ℕ → ConnectFut R Stream E → Outcome (ConnectFut R Stream E × Poll (Connected R Stream E))
  unfolding poll_connect call_tcp
  poll_response zero fut = out_of_fuel
  poll_response (suc n) fut = poll_connect fut >>= on_state (λ fut'. poll_response n fut')
