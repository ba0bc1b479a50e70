-- ===== src/Server/Startup/Launch/Once.antt =====
-- What a starting worker reports, and whom it tells of its stop (worker.rs of actix-server/src).
use actix_net.Prelude.{
  ℕ, zero, suc, ◌≡◌, refl, Bool, true, false, List, [], ◌∷◌, ◌++◌, some, Result, ok, err, ◌⊎◌, inl,
  inr, if_elim, ap, sym, subst, ◌∙◌,
}
use actix_net.Prelude.Panics.{Outcome, done, panicked, out_of_fuel, ◌>>=◌}
use actix_net.Prelude.Futures.{Fut, resolved, later, never, poll_fut, after_polls}
use actix_net.Server.Handle.{Conn}
use actix_net.Server.Worker.{BoxedService, WorkerService, Stop}
use actix_net.Server.Builder.{ServerBuilder, ServerWorkerConfig}
use actix_net.Server.Builder.Tokens.{IsValid}
use actix_net.Server.Startup.{create_services, wrap_worker_services}
use actix_net.Server.Startup.Services.{value, Creates, wrap-create_services}
use actix_net.Server.Startup.Launch.{
  Created, LaunchState, creating, working, ended, Launch, new_launch, begun, report_error,
  on_creation, poll_creation, poll_stop, in_launch_state, poll_launch, LaunchAct, polled, requested,
  sent_to, abandoned, launch_act, launch_acts, request, connection,
}

-- The services that a creation comes to are those that `wrap_worker_services` takes.
abbrev pub Wraps : Fut Created → Type 0
Wraps f =
    (services : List (ℕ × ℕ × BoxedService))
    → value f ≡ some (ok services)
    → (ws : List WorkerService) × (wrap_worker_services services ≡ done ws)

-- The creation of a valid builder's services, when each factory comes to one.
pub create_services-Wraps :
    {F A L I : Type 0} (new_service : F → Fut (Result I BoxedService)) (b : ServerBuilder F A L)
    (ss : List BoxedService)
    → IsValid b
    → Creates new_service b.factories ss
    → Wraps (create_services new_service b.factories)
create_services-Wraps new_service b ss v c services e =
    let (created, ws, f, g, same_services, same_tokens) =
      wrap-create_services new_service b ss v c in
    let same : created ≡ services = cc (e, f) in
    (ws, subst (λ cs. wrap_worker_services cs ≡ done ws) same g)

-- Polls, one more than the number, that take their branches in any order.
abbrev pub polls : (ℕ → Bool) → ℕ → List LaunchAct
polls first zero = polled (first zero) ∷ []
polls first (suc n) = polled (first (suc n)) ∷ polls first n

module _ (idx : ℕ) (config : ServerWorkerConfig) where
  -- A thread that creates services has reported and told nothing; one that works has reported its
  -- success; and one that has ended without work has told one who stops it that it has stopped, or has
  -- reported its error, or nobody awaits its report.
  abbrev pub IsReported : Launch → LaunchState → Type 0
  IsReported l (creating fut) = (l.reports ≡ []) × (l.told ≡ []) × Wraps fut
  IsReported l (working w) = (l.reports ≡ (idx, ok tt) ∷ []) × (l.told ≡ [])
  IsReported l ended =
      ((tx : ℕ) × (l.told ≡ (tx, true) ∷ []) × (l.reports ≡ []))
      ⊎ (((e : ℕ) × (l.reports ≡ (idx, err e) ∷ []) × (l.told ≡ []))
          ⊎ ((l.awaited ≡ false) × (l.reports ≡ []) × (l.told ≡ [])))

  -- The acts do not panic.
  abbrev pub IsOnce : Outcome Launch → Type 0
  IsOnce (done l) = IsReported l l.state
  IsOnce panicked = ⊥
  IsOnce out_of_fuel = ⊥

  begun-IsOnce :
      (l : Launch) (ws : List WorkerService)
      → l.reports ≡ []
      → l.told ≡ []
      → IsOnce (begun idx config l ws)
  begun-IsOnce l ws r t = (ap (λ rs. rs ++ (idx, ok tt) ∷ []) r, t)

  report_error-IsOnce :
      (l : Launch) (e : ℕ)
      → l.reports ≡ []
      → l.told ≡ []
      → IsOnce (done (report_error idx config l e))
  report_error-IsOnce l e r t =
      if_elim (λ l'. IsOnce (done l')) l.awaited _ _
        (λ a. inr (inl (e, ap (λ rs. rs ++ (idx, err e) ∷ []) r, t))) (λ a. inr (inr (a, r, t)))

  on_creation-IsOnce :
      (l : Launch) (created : Created)
      → l.reports ≡ []
      → l.told ≡ []
      → Wraps (resolved created)
      → IsOnce (on_creation idx config l created)
  unfolding on_creation
  on_creation-IsOnce l (err e) r t v = report_error-IsOnce l e r t
  on_creation-IsOnce l (ok services) r t v =
      let (ws, e) = v services refl in
      if_elim IsOnce l.awaited _ _
        (λ a. subst (λ o. IsOnce (o >>= begun idx config l)) (sym e) (begun-IsOnce l ws r t))
        (λ a. inr (inr (a, r, t)))

  stop-IsOnce :
      (l : Launch) (stops : List Stop) (other : Launch → Outcome Launch)
      → l.reports ≡ []
      → l.told ≡ []
      → IsOnce (other l)
      → IsOnce (poll_stop idx config l stops other)
  stop-IsOnce l [] other r t h = h
  stop-IsOnce l (s ∷ rest) other r t h = inl (s.tx, ap (λ ts. ts ++ (s.tx, true) ∷ []) t, r)

  creation-IsOnce :
      (l : Launch) (fut : Fut Created) (other : Launch → Outcome Launch)
      → l.reports ≡ []
      → l.told ≡ []
      → Wraps fut
      → ((fut' : Fut Created) → Wraps fut' → IsOnce (other (record l { state = creating fut' })))
      → IsOnce (poll_creation idx config l (poll_fut fut) other)
  creation-IsOnce l (resolved created) other r t v h = on_creation-IsOnce l created r t v
  creation-IsOnce l (later fut) other r t v h = h fut v
  creation-IsOnce l never other r t v h = h never v

  in_state-IsOnce :
      (stop_first : Bool) (l : Launch) (st : LaunchState)
      → IsReported l l.state
      → IsReported l st
      → IsOnce (in_launch_state idx config stop_first l st)
  in_state-IsOnce true l (creating fut) h (r, t, v) =
      stop-IsOnce l l.stop_rx _ r t (creation-IsOnce l fut done r t v (λ fut' v'. (r, t, v')))
  in_state-IsOnce false l (creating fut) h (r, t, v) =
      creation-IsOnce l fut _ r t v
        (λ fut' v'. stop-IsOnce (record l { state = creating fut' }) l.stop_rx done r t (r, t, v'))
  in_state-IsOnce b l (working w) h v = h
  in_state-IsOnce b l ended h v = h

  request-IsOnce :
      (l : Launch) (s : Stop) (st : LaunchState)
      → IsReported l l.state
      → IsReported l st
      → IsOnce (done (request l s st))
  request-IsOnce l s (creating fut) h v = h
  request-IsOnce l s (working w) h v = v
  request-IsOnce l s ended h v = h

  connection-IsOnce :
      (l : Launch) (c : Conn) (st : LaunchState)
      → IsReported l l.state
      → IsReported l st
      → IsOnce (done (connection l c st))
  connection-IsOnce l c (creating fut) h v = h
  connection-IsOnce l c (working w) h v = v
  connection-IsOnce l c ended h v = h

  abandoned-IsReported :
      (l : Launch) (st : LaunchState)
      → IsReported l st
      → IsReported (record l { awaited = false }) st
  abandoned-IsReported l (creating fut) h = h
  abandoned-IsReported l (working w) h = h
  abandoned-IsReported l ended (inl h) = inl h
  abandoned-IsReported l ended (inr (inl h)) = inr (inl h)
  abandoned-IsReported l ended (inr (inr (a, r, t))) = inr (inr (refl, r, t))

  act-IsOnce :
      (l : Launch) (h : LaunchAct) → IsReported l l.state → IsOnce (launch_act idx config l h)
  unfolding poll_launch
  act-IsOnce l (polled stop_first) v = in_state-IsOnce stop_first l l.state v v
  act-IsOnce l (requested s) v = request-IsOnce l s l.state v v
  act-IsOnce l (sent_to c) v = connection-IsOnce l c l.state v v
  act-IsOnce l abandoned v = abandoned-IsReported l l.state v

  go_on-IsOnce :
      (o : Outcome Launch) (k : Launch → Outcome Launch)
      → IsOnce o
      → ((l : Launch) → IsReported l l.state → IsOnce (k l))
      → IsOnce (o >>= k)
  go_on-IsOnce (done l) k v h = h l v
  go_on-IsOnce panicked k v h = absurd v
  go_on-IsOnce out_of_fuel k v h = absurd v

  acts-IsOnce :
      (hs : List LaunchAct) (l : Launch)
      → IsReported l l.state
      → IsOnce (launch_acts idx config l hs)
  acts-IsOnce [] l v = v
  acts-IsOnce (h ∷ hs) l v =
      go_on-IsOnce (launch_act idx config l h) (λ l'. launch_acts idx config l' hs)
        (act-IsOnce l h v) (acts-IsOnce hs)

  -- When the services that a creation comes to have their positions as tokens, then whatever happens
  -- to a starting worker, and whichever branch its polls take first, it does not panic; it has
  -- reported nothing while it creates the services, its success alone once it works, and if it has
  -- ended before, then it has told one who stops it and reported nothing, or has reported its error
  -- alone, or nobody awaits its report.
  pub launch-IsOnce :
      (fut : Fut Created) (hs : List LaunchAct)
      → Wraps fut
      → IsOnce (launch_acts idx config (new_launch fut) hs)
  launch-IsOnce fut hs v = acts-IsOnce hs (new_launch fut) (refl, refl, v)

  works_now :
      (stop_first : Bool) (services : List (ℕ × ℕ × BoxedService)) (ws : List WorkerService)
      → wrap_worker_services services ≡ done ws
      → poll_launch idx config stop_first (new_launch (resolved (ok services)))
        ≡ begun idx config (new_launch (resolved (ok services))) ws
  unfolding poll_launch on_creation
  works_now true services ws e = rw e refl
  works_now false services ws e = rw e refl

  waits_still :
      (stop_first : Bool) (fut : Fut Created)
      → poll_launch idx config stop_first (new_launch (later fut)) ≡ done (new_launch fut)
  unfolding poll_launch
  waits_still true fut = refl
  waits_still false fut = refl

  -- Without a request to stop, a creation that comes to its services after some pending polls is
  -- followed by the worker with these services, and by its report, at the next poll.
  pub launch_works :
      (first : ℕ → Bool) (n : ℕ) (services : List (ℕ × ℕ × BoxedService)) (ws : List WorkerService)
      → wrap_worker_services services ≡ done ws
      → launch_acts idx config (new_launch (after_polls n (ok services))) (polls first n)
        ≡ begun idx config (new_launch (resolved (ok services))) ws
  launch_works first zero services ws e =
      ap (λ o. o >>= done) (works_now (first zero) services ws e)
  launch_works first (suc n) services ws e =
      ap (λ o. o >>= λ l. launch_acts idx config l (polls first n)) (waits_still (first (suc n)) _)
      ∙ launch_works first n services ws e
