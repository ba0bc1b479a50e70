-- ===== src/Tls/Connector/Lookups.antt =====
-- The resolver against its description (actix-tls/src/connect/resolver.rs).
use actix_net.Prelude.{
  ◌≡◌, refl, ap, List, [], ◌∷◌, Option, none, some, length, Result, ok, err, arith, ltb, false,
}
use actix_net.Prelude.Futures.{
  Fut, resolved, later, never, then_fut, or_fail, try_fut, then_fut-mapped,
}
use actix_net.Prelude.Tasks.{Steps}
use actix_net.Tls.Info.{
  IpAddr, SocketAddr, ConnectAddrs, one, info_port, show_info, multi, ConnectInfo, set_addr,
  set_addrs, is_resolved,
}
use actix_net.Tls.Resolver.{
  ResolverKind, default, custom, ResolverFut, resolved_fut, look_up, lookup_custom, look, Resolved,
  with_records, default_answer, custom_answer, call_resolver, poll_resolver,
}
use actix_net.Tls.Connector.{Env}
use actix_net.Tls.Connector.Meaning.{
  listed, IsNormal, default_records, custom_records, looked_up, by_name, addresses,
}

module _ {ℓ} {R : Type ℓ} where
  -- `set_addrs` has every list as its addresses, in the form that the others have.
  pub set_addrs-listed :
      (c : ConnectInfo R) (xs : List SocketAddr) → listed (set_addrs c xs).addr ≡ xs
  unfolding set_addrs
  set_addrs-listed c [] = refl
  set_addrs-listed c (a ∷ []) = refl
  set_addrs-listed c (a ∷ b ∷ xs) =
      let several : ltb (length (a ∷ b ∷ xs)) 2 ≡ false = ground arith in rw several refl

  pub set_addrs-IsNormal :
      (c : ConnectInfo R) (xs : List SocketAddr) → IsNormal (set_addrs c xs).addr
  unfolding set_addrs
  set_addrs-IsNormal c [] = tt
  set_addrs-IsNormal c (a ∷ []) = tt
  set_addrs-IsNormal c (a ∷ b ∷ xs) =
      let several : ltb (length (a ∷ b ∷ xs)) 2 ≡ false = ground arith in rw several (omega arith)

module _ {ℓ} {R Socket Stream E : Type ℓ} (env : Env R Socket Stream E) where
  -- What a state of the resolver is worth.
  abbrev pub resolver_worth : ResolverFut R E → Option (Fut (Resolved R E))
  resolver_worth (resolved_fut none) = none
  resolver_worth (resolved_fut (some req)) = some (resolved (ok req))
  resolver_worth (look_up fut none) = none
  resolver_worth (look_up fut (some req)) = some (then_fut fut λ r. resolved (default_answer req r))
  resolver_worth (lookup_custom fut none) = none
  resolver_worth (lookup_custom fut (some req)) =
      some (then_fut fut λ r. resolved (custom_answer req r))

  pub poll_resolver-Steps :
      (s : ResolverFut R E)
      → Steps poll_resolver resolver_worth (poll_resolver s) (resolver_worth s)
  unfolding poll_resolver
  poll_resolver-Steps (resolved_fut none) = tt
  poll_resolver-Steps (resolved_fut (some req)) = (_, refl)
  poll_resolver-Steps (look_up fut none) = tt
  poll_resolver-Steps (look_up (resolved a) (some req)) = (_, refl)
  poll_resolver-Steps (look_up (later g) (some req)) = (_, refl, refl)
  poll_resolver-Steps (look_up never (some req)) = (_, refl, refl)
  poll_resolver-Steps (lookup_custom fut none) = tt
  poll_resolver-Steps (lookup_custom (resolved a) (some req)) = (_, refl)
  poll_resolver-Steps (lookup_custom (later g) (some req)) = (_, refl, refl)
  poll_resolver-Steps (lookup_custom never (some req)) = (_, refl, refl)

  with_records-set_addrs :
      (req : ConnectInfo R) (a : SocketAddr) (xs : List SocketAddr)
      → with_records {E = E} req (a ∷ xs) ≡ ok (set_addrs req (a ∷ xs))
  unfolding with_records set_addrs
  with_records-set_addrs req a [] = refl
  with_records-set_addrs req a (b ∷ xs) =
      let several : ltb (length (a ∷ b ∷ xs)) 2 ≡ false = ground arith in rw several refl

  abbrev pub with_addrs : ConnectInfo R → List SocketAddr → Fut (Resolved R E)
  with_addrs req xs = resolved (ok (set_addrs req xs))

  custom_answer_lem :
      (req : ConnectInfo R) (r : Result E (List SocketAddr))
      → resolved (custom_answer req r) ≡ or_fail (with_addrs req) (custom_records env r)
  unfolding with_records set_addrs
  custom_answer_lem req (err e) = refl
  custom_answer_lem req (ok []) = refl
  custom_answer_lem req (ok (a ∷ xs)) = ap resolved (with_records-set_addrs req a xs)

  default_answer_lem :
      (req : ConnectInfo R) (r : Result E (Result E (List SocketAddr)))
      → resolved (default_answer req r) ≡ or_fail (with_addrs req) (default_records env r)
  default_answer_lem req (err e) = refl
  default_answer_lem req (ok (err e)) = refl
  default_answer_lem req (ok (ok xs)) = custom_answer_lem req (ok xs)

  looked_up_lem :
      (kind : ResolverKind E) (req : ConnectInfo R)
      → resolver_worth (look env.host env.parse_ip env.to_socket_addrs kind req none)
        ≡ some (try_fut (looked_up env kind req) (with_addrs req))
  looked_up_lem default req = ap some (
      then_fut-mapped (env.to_socket_addrs (show_info env.host req)) (default_records env)
        (or_fail (with_addrs req)) (default_answer req) (default_answer_lem req))
  looked_up_lem (custom lookup) req = ap some (
      then_fut-mapped (lookup (env.host.hostname req.request) (info_port env.host req))
        (custom_records env) (or_fail (with_addrs req)) (custom_answer req) (custom_answer_lem req))

  looked_by_name :
      (req : ConnectInfo R) (ip : Option IpAddr)
      → resolver_worth (look env.host env.parse_ip env.to_socket_addrs env.kind req ip)
        ≡ some (try_fut (by_name env req ip) (with_addrs req))
  unfolding set_addr set_addrs
  looked_by_name req none = looked_up_lem env.kind req
  looked_by_name req (some ip) = refl

  -- A call of the resolver is worth the addresses, and the request with them.
  pub call_resolver-resolving :
      (req : ConnectInfo R) (addr : ConnectAddrs)
      → req.addr ≡ addr
      → IsNormal addr
      → resolver_worth (call_resolver env.host env.parse_ip env.to_socket_addrs env.kind req)
        ≡ some (try_fut (addresses env req) (with_addrs req))
  unfolding call_resolver is_resolved set_addrs
  call_resolver-resolving req ConnectAddrs.unresolved e n = rw e (
      looked_by_name (record req { addr = ConnectAddrs.unresolved })
        (env.parse_ip (env.host.hostname req.request)))
  call_resolver-resolving req (one a) e n = rw e refl
  call_resolver-resolving req (multi []) e n = absurd (omega (arith, n))
  call_resolver-resolving req (multi (a ∷ xs)) e n =
      let several : ltb (length (a ∷ xs)) 2 ≡ false = ground arith in rw e (rw several refl)
