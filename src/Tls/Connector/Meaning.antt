-- ===== src/Tls/Connector/Meaning.antt =====
-- A plain description of the connector (actix-tls/src/connect): the addresses of a request, awaited,
-- and then each of them in order, up to the first that takes the connection.
use actix_net.Prelude.{◌≤◌, List, [], ◌∷◌, Option, none, some, length, Result, ok, err}
use actix_net.Prelude.Futures.{Fut, resolved, then_fut, try_fut}
use actix_net.Tls.Info.{
  IpAddr, SocketAddr, ConnectAddrs, one, multi, ConnectInfo, info_port, show_info,
}
use actix_net.Tls.Resolver.{ConnectError, resolver, no_records, io, ResolverKind, default, custom}
use actix_net.Tls.Tcp.{Connected, connect}
use actix_net.Tls.Connector.{Env}

abbrev pub listed : ConnectAddrs → List SocketAddr
listed ConnectAddrs.unresolved = []
listed (one a) = a ∷ []
listed (multi xs) = xs

-- What the public operations make: several addresses are at least two.
abbrev pub IsNormal : ConnectAddrs → Type 0
IsNormal ConnectAddrs.unresolved = Unit
IsNormal (one a) = Unit
IsNormal (multi xs) = 2 ≤ length xs

module _ {ℓ} {R Socket Stream E : Type ℓ} (env : Env R Socket Stream E) where
  abbrev pub Addresses : Type ℓ
  Addresses = Result (ConnectError E) (List SocketAddr)

  abbrev pub at_least_one : List SocketAddr → Addresses
  at_least_one [] = err no_records
  at_least_one (a ∷ xs) = ok (a ∷ xs)

  abbrev pub default_records : Result E (Result E (List SocketAddr)) → Addresses
  default_records (err e) = err (io e)
  default_records (ok (err e)) = err (resolver e)
  default_records (ok (ok xs)) = at_least_one xs

  abbrev pub custom_records : Result E (List SocketAddr) → Addresses
  custom_records (err e) = err (resolver e)
  custom_records (ok xs) = at_least_one xs

  abbrev pub looked_up : ResolverKind E → ConnectInfo R → Fut Addresses
  looked_up default req =
      then_fut (env.to_socket_addrs (show_info env.host req)) λ r. resolved (default_records r)
  looked_up (custom lookup) req =
      then_fut (lookup (env.host.hostname req.request) (info_port env.host req))
        λ r. resolved (custom_records r)

  abbrev pub by_name : ConnectInfo R → Option IpAddr → Fut Addresses
  by_name req (some ip) = resolved (ok (record { ip = ip; port = info_port env.host req } ∷ []))
  by_name req none = looked_up env.kind req

  abbrev pub known_or : List SocketAddr → Fut Addresses → Fut Addresses
  known_or [] other = other
  known_or (a ∷ xs) other = resolved (ok (a ∷ xs))

  -- The addresses that the request has, or is, or that a lookup finds.
  abbrev pub addresses : ConnectInfo R → Fut Addresses
  addresses req =
      known_or (listed req.addr) (by_name req (env.parse_ip (env.host.hostname req.request)))

  abbrev pub last_attempt : R → Result E Stream → Connected R Stream E
  last_attempt req (ok sock) = ok (req, sock)
  last_attempt req (err e) = err (io e)

  abbrev pub or_else : R → Fut (Connected R Stream E) → Result E Stream → Fut (Connected R Stream E)
  or_else req next (ok sock) = resolved (ok (req, sock))
  or_else req next (err e) = next

  -- The connection that has been begun, and when it fails the others in their order.
  abbrev pub attempts :
      R → Option IpAddr → List SocketAddr → Fut (Result E Stream) → Fut (Connected R Stream E)
  attempts req local_addr [] stream = then_fut stream λ r. resolved (last_attempt req r)
  attempts req local_addr (a ∷ xs) stream =
      then_fut stream (or_else req (attempts req local_addr xs (connect env.net a local_addr)))

  abbrev pub first_success : R → Option IpAddr → List SocketAddr → Fut (Connected R Stream E)
  first_success req local_addr [] = resolved (err ConnectError.unresolved)
  first_success req local_addr (a ∷ xs) = attempts req local_addr xs (connect env.net a local_addr)

  abbrev pub meaning : ConnectInfo R → Fut (Connected R Stream E)
  meaning req = try_fut (addresses req) (first_success req.request req.local_addr)
