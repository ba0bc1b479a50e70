-- ===== src/Tls/Connector/Runs.antt =====
-- The whole connector against its description (actix-tls/src/connect).
use actix_net.Prelude.{ℕ, suc, ◌≡◌, refl, ap, ◌∙◌, sym, subst, fun_ext, List, some, Result, ok, err}
use actix_net.Prelude.Panics.{done}
use actix_net.Prelude.Futures.{Fut, resolved, later, never, try_fut, try_fut-try_fut}
use actix_net.Prelude.Tasks.{Steps, Answers, run, await, run-await}
use actix_net.Tls.Info.{SocketAddr, ConnectInfo, set_addrs}
use actix_net.Tls.Resolver.{ConnectError, ResolverFut, Resolved, poll_resolver}
use actix_net.Tls.Tcp.{TcpConnectorFut, Connected, poll_tcp}
use actix_net.Tls.Connector.{
  Env, ConnectFut, resolve, connecting, call_connector, poll_connect, poll_response,
}
use actix_net.Tls.Connector.Meaning.{listed, IsNormal, addresses, first_success, meaning}
use actix_net.Tls.Connector.Lookups.{
  set_addrs-listed, set_addrs-IsNormal, resolver_worth, poll_resolver-Steps, with_addrs,
  call_resolver-resolving,
}
use actix_net.Tls.Connector.Attempts.{tcp_worth, poll_tcp-Steps, call_tcp-first_success}

module _ {ℓ} {R Socket Stream E : Type ℓ} (env : Env R Socket Stream E) where
  -- The connection for a request that has its addresses.
  abbrev pub dial : ConnectInfo R → Fut (Connected R Stream E)
  dial c = first_success env c.request c.local_addr (listed c.addr)

  -- The requests that a lookup may lead to have addresses in the form that the operations make.
  abbrev pub AllNormal : Fut (Resolved R E) → Type 0
  AllNormal (resolved (ok c)) = IsNormal c.addr
  AllNormal (resolved (err e)) = Unit
  AllNormal (later g) = AllNormal g
  AllNormal never = Unit

  -- The state of the connector does what the future does.
  abbrev pub IsWorth : ConnectFut R Stream E → Fut (Connected R Stream E) → Type ℓ
  IsWorth (resolve s) f =
      (g : Fut (Resolved R E)) × (resolver_worth env s ≡ some g)
      × AllNormal g
      × (f ≡ try_fut g dial)
  IsWorth (connecting t) f = tcp_worth env t ≡ some f

  module _ (n : ℕ) where
    connecting-Answers :
        (m : ℕ) (t : TcpConnectorFut R Stream E) (f : Fut (Connected R Stream E))
        → Steps (poll_tcp env.net) (tcp_worth env) (poll_tcp env.net t) (some f)
        → Answers
            (poll_response env (suc (suc n)))
            IsWorth
            (poll_response env (suc m) (connecting t))
            f
    unfolding poll_response poll_connect
    connecting-Answers m t (resolved (ok c)) (t', e) = (connecting t', rw e refl)
    connecting-Answers m t (resolved (err x)) (t', e) = (connecting t', rw e refl)
    connecting-Answers m t (later f) (t', e, w) = (connecting t', rw e refl, w)
    connecting-Answers m t never (t', e, w) = (connecting t', rw e refl, w)

    resolve-Answers :
        (s : ResolverFut R E) (g : Fut (Resolved R E))
        → Steps poll_resolver (resolver_worth env) (poll_resolver s) (some g)
        → AllNormal g
        → Answers
            (poll_response env (suc (suc n)))
            IsWorth
            (poll_response env (suc (suc n)) (resolve s))
            (try_fut g dial)
    unfolding poll_response poll_connect
    resolve-Answers s (resolved (ok c)) (s', e) k =
        let (t, called, w) = call_tcp-first_success env c k in
        rw (e, called)
          (connecting-Answers n t (dial c) (
            subst (λ o. Steps (poll_tcp env.net) (tcp_worth env) (poll_tcp env.net t) o) w
              (poll_tcp-Steps env t)))
    resolve-Answers s (resolved (err x)) (s', e) k = (resolve s', rw e refl)
    resolve-Answers s (later g) (s', e, w) k = (resolve s', rw e refl, (g, w, k, refl))
    resolve-Answers s never (s', e, w) k = (resolve s', rw e refl, (never, w, tt, refl))

    poll_response-Answers :
        (s : ConnectFut R Stream E) (f : Fut (Connected R Stream E))
        → IsWorth s f
        → Answers (poll_response env (suc (suc n))) IsWorth (poll_response env (suc (suc n)) s) f
    poll_response-Answers (resolve s) f (g, w, k, e) = rw e (
        resolve-Answers s g
          (subst (λ o. Steps poll_resolver (resolver_worth env) (poll_resolver s) o) w
            (poll_resolver-Steps env s))
          k)
    poll_response-Answers (connecting t) f w = connecting-Answers (suc n) t f (
        subst (λ o. Steps (poll_tcp env.net) (tcp_worth env) (poll_tcp env.net t) o) w
          (poll_tcp-Steps env t))

  AllNormal-with_addrs :
      (req : ConnectInfo R) (f : Fut (Result (ConnectError E) (List SocketAddr)))
      → AllNormal (try_fut f (with_addrs env req))
  AllNormal-with_addrs req (resolved (ok xs)) = set_addrs-IsNormal req xs
  AllNormal-with_addrs req (resolved (err e)) = tt
  AllNormal-with_addrs req (later f) = AllNormal-with_addrs req f
  AllNormal-with_addrs req never = tt

  meaning_lem :
      (req : ConnectInfo R)
      → meaning env req ≡ try_fut (try_fut (addresses env req) (with_addrs env req)) dial
  unfolding set_addrs
  meaning_lem req =
      ap (λ h. try_fut (addresses env req) h)
        (fun_ext
          λ xs. ap (first_success env req.request req.local_addr) (sym (set_addrs-listed req xs)))
      ∙ sym (try_fut-try_fut (addresses env req) (with_addrs env req) dial)

  -- Polls of a connector's future, with two rounds of its loop or more for each, answer exactly as the
  -- description's future does, without a panic, for a request whose addresses, if it has several, are
  -- at least two.
  pub run-meaning :
      (rounds n : ℕ) (req : ConnectInfo R)
      → IsNormal req.addr
      → run (poll_response env (suc (suc rounds))) n (call_connector env req)
        ≡ done (await n (meaning env req))
  unfolding call_connector
  run-meaning rounds n req k =
      run-await (poll_response env (suc (suc rounds))) IsWorth (poll_response-Answers rounds) n
        (call_connector env req) (meaning env req)
        (
          _,
          call_resolver-resolving env req req.addr refl k,
          AllNormal-with_addrs req (addresses env req),
          meaning_lem req,
        )
