-- ===== src/Tls/Resolver.antt =====
-- actix-tls/src/connect/resolver.rs: the addresses of a request. Parsing an IP address, the standard
-- lookup on another thread and a custom resolver are parameters.
use actix_net.Prelude.{
  ℕ, List, Option, none, some, Result, ok, err, Poll, pending, ready, if◌then◌else◌,
}
use actix_net.Prelude.Panics.{Outcome, done, panicked}
use actix_net.Prelude.Futures.{Fut, poll_fut}
use actix_net.Tls.Host.{Text, Host}
use actix_net.Tls.Info.{
  IpAddr, SocketAddr, is_unresolved, is_resolved, ConnectInfo, set_addr, set_addrs, info_port,
  show_info,
}

-- `E` carries the errors of the operating system and of the resolvers, which are passed on unread.
pub data ConnectError {ℓ} (E : Type ℓ) : Type ℓ where
  resolver : E → ConnectError E
  no_records invalid_input unresolved : ConnectError E
  io : E → ConnectError E

abbrev pub Lookup {ℓ} : Type ℓ → Type ℓ
Lookup E = Fut (Result E (List SocketAddr))

-- The default lookup fails in two ways: its thread, or the lookup itself.
abbrev pub DefaultLookup {ℓ} : Type ℓ → Type ℓ
DefaultLookup E = Fut (Result E (Result E (List SocketAddr)))

pub data ResolverKind {ℓ} (E : Type ℓ) : Type ℓ where
  default : ResolverKind E
  custom : (Text → ℕ → Lookup E) → ResolverKind E

pub data ResolverFut {ℓ} (R E : Type ℓ) : Type ℓ where
  resolved_fut : Option (ConnectInfo R) → ResolverFut R E
  look_up : DefaultLookup E → Option (ConnectInfo R) → ResolverFut R E
  lookup_custom : Lookup E → Option (ConnectInfo R) → ResolverFut R E

abbrev pub Resolved {ℓ} : Type ℓ → Type ℓ → Type ℓ
Resolved R E = Result (ConnectError E) (ConnectInfo R)

module _ {ℓ} {R E : Type ℓ} where
  module _ (host : Host R) (parse_ip : Text → Option IpAddr)
      (to_socket_addrs : Text → DefaultLookup E) where
    abbrev pub look : ResolverKind E → ConnectInfo R → Option IpAddr → ResolverFut R E
    look kind req (some ip) =
        resolved_fut (some (set_addr req (some (record { ip = ip; port = info_port host req }))))
    look default req none = look_up (to_socket_addrs (show_info host req)) (some req)
    look (custom lookup) req none =
        lookup_custom (lookup (host.hostname req.request) (info_port host req)) (some req)

    -- `ResolverService::call`.
    unfoldable pub call_resolver : ResolverKind E → ConnectInfo R → ResolverFut R E
    unfolding is_resolved set_addr info_port show_info
    call_resolver kind req =
        if is_resolved req.addr
        then resolved_fut (some req)
        else look kind req (parse_ip (host.hostname req.request))

  unfoldable pub with_records : ConnectInfo R → List SocketAddr → Resolved R E
  unfolding set_addrs
  with_records req addrs =
      let found = set_addrs req addrs in
      if is_unresolved found.addr then err no_records else ok found

  abbrev pub default_answer : ConnectInfo R → Result E (Result E (List SocketAddr)) → Resolved R E
  default_answer req (err e) = err (io e)
  default_answer req (ok (err e)) = err (resolver e)
  default_answer req (ok (ok addrs)) = with_records req addrs

  abbrev pub custom_answer : ConnectInfo R → Result E (List SocketAddr) → Resolved R E
  custom_answer req (err e) = err (resolver e)
  custom_answer req (ok addrs) = with_records req addrs

  abbrev pub on_default :
      Option (ConnectInfo R)
      → DefaultLookup E × Poll (Result E (Result E (List SocketAddr)))
      → Outcome (ResolverFut R E × Poll (Resolved R E))
  on_default req (fut, pending) = done (look_up fut req, pending)
  on_default none (fut, ready r) = panicked
  on_default (some req) (fut, ready r) = done (look_up fut none, ready (default_answer req r))

  -- The body of the custom lookup's `async` block, which owns the request until it ends.
  abbrev pub on_custom :
      Option (ConnectInfo R)
      → Lookup E × Poll (Result E (List SocketAddr))
      → Outcome (ResolverFut R E × Poll (Resolved R E))
  on_custom none (fut, answer) = panicked
  on_custom (some req) (fut, pending) = done (lookup_custom fut (some req), pending)
  on_custom (some req) (fut, ready r) = done (lookup_custom fut none, ready (custom_answer req r))

  -- `ResolverFut::poll`.
  unfoldable pub poll_resolver : ResolverFut R E → Outcome (ResolverFut R E × Poll (Resolved R E))
  poll_resolver (resolved_fut none) = panicked
  poll_resolver (resolved_fut (some req)) = done (resolved_fut none, ready (ok req))
  poll_resolver (look_up fut req) = on_default req (poll_fut fut)
  poll_resolver (lookup_custom fut req) = on_custom req (poll_fut fut)
