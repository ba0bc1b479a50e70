-- ===== src/Server/Worker/Serves.antt =====
-- The polls of a worker that serves (actix-server/src/worker.rs).
use actix_net.Prelude.{
  ℕ, zero, suc, ◌+◌, ◌*◌, ◌≤◌, ◌<◌, ◌≡◌, refl, sym, ◌∙◌, Bool, true, false, List, [], ◌∷◌, Result,
  ok, arith, inl, inr, ◌⊎◌,
}
use actix_net.Prelude.Futures.{Fut}
use actix_net.Prelude.Panics.{done, ◌>>=◌}
use actix_net.Server.Handle.{Conn}
use actix_net.Server.Worker.{
  BoxedService, WorkerService, WorkerState, ServerWorker, check_readiness,
}
use actix_net.Server.Worker.Readiness.{answers_left, IsChecked}
use actix_net.Server.Worker.Polling.{
  Polled, handle_stop, dispatch, on_readiness, serve, on_unavailable, by_state, poll,
}
use actix_net.Server.Worker.Serving.{
  IsServed, IsServed-trans, IsFit, Serves, Serves-trans, with_services, checked-IsFit,
  check_readiness_lem,
}
use actix_net.Server.Worker.Dispatching.{dispatch_lem}

module _ (create : ℕ → ℕ → Fut (Result (Unit {0}) (ℕ × BoxedService)))
    (again : ServerWorker → Polled) (most : ℕ)
    (again-Serves : (v : ServerWorker)
      → IsFit v
      → v.state ≡ WorkerState.unavailable
      → answers_left v.services ≤ most
      → Serves v (again v)) where
  -- A check that finds a service not ready leads to the poll itself.
  on_readiness-Serves :
      (go : ServerWorker → Polled) (w : ServerWorker)
      → IsFit w
      → answers_left w.services ≤ most
      → ((ss : List WorkerService)
          → IsChecked w.services ss true
          → Serves w (go (with_services w ss)))
      → Serves w (on_readiness create again go (check_readiness w))
  unfolding on_readiness
  on_readiness-Serves go w f l next =
      let (ss, b, e, c) = check_readiness_lem w f.healthy in after ss b e c
    where
      after :
          (ss : List WorkerService) (b : Bool)
          → check_readiness w ≡ (with_services w ss, ok b)
          → IsChecked w.services ss b
          → Serves w (on_readiness create again go (check_readiness w))
      after ss true e c = rw e (next ss c)
      after ss false e c =
          let v = record w { services = ss; state = WorkerState.unavailable } in
          let (f', s) = checked-IsFit w ss false WorkerState.unavailable 0 f c (omega arith) in
          rw e (Serves-trans 1 w v (again v) s (again-Serves v f' refl (omega (arith, c.fewer))))

  serve-Serves :
      (cs : List Conn) (w : ServerWorker)
      → IsFit w
      → w.conn_rx ≡ cs
      → w.state ≡ WorkerState.available
      → answers_left w.services ≤ most
      → Serves w (serve create again cs w)
  unfolding serve
  serve-Serves [] w f q st l = on_readiness-Serves _ w f l λ ss c.
      let (f', s) = checked-IsFit w ss true w.state 0 f c (omega arith) in
      (f', 0, s, inl (sym c.told, q, st))
  serve-Serves (c ∷ cs) w f q st l = on_readiness-Serves _ w f l λ ss k.
      let (f', s) = checked-IsFit w ss true w.state 1 f k (omega arith) in
      sent (with_services w ss) s st (λ w' g r st' m. serve-Serves cs w' g r st' m)
        (dispatch_lem (with_services w ss) c cs f' q) (omega (arith, k.fewer))
    where
      sent :
          (v : ServerWorker)
          → IsServed 0 w 1 1 v
          → v.state ≡ WorkerState.available
          → ((w' : ServerWorker)
              → IsFit w'
              → w'.conn_rx ≡ cs
              → w'.state ≡ WorkerState.available
              → answers_left w'.services ≤ most
              → Serves w' (serve create again cs w'))
          → (w' : ServerWorker) × (dispatch (record v { conn_rx = cs }) c ≡ done w')
            × IsFit w'
            × IsServed 1 v 0 0 w'
            × (w'.conn_rx ≡ cs)
            × (w'.state ≡ v.state)
            × (answers_left w'.services ≡ answers_left v.services)
          → answers_left v.services ≤ most
          → Serves w (dispatch (record v { conn_rx = cs }) c >>= λ w''. serve create again cs w'')
      sent v p st' rest (w', e, g, s, r, same, k) m = rw e (
          Serves-trans 1 w w' (serve create again cs w') (IsServed-trans 0 1 0 1 0 w v w' p s)
            (rest w' g r (same ∙ st') (omega (arith, k, m))))

-- Fuel for a poll that starts in a state: two rounds for each answer of the services.
abbrev pub HasFuel : ℕ → ServerWorker → Type 0
HasFuel n w =
    ((w.state ≡ WorkerState.unavailable) × (2 * answers_left w.services < n))
    ⊎ ((w.state ≡ WorkerState.available) × (2 * answers_left w.services + 1 < n))

pub handle_stop_none :
    (now : ℕ) (w : ServerWorker) → w.stop_rx ≡ [] → handle_stop now w ≡ (w, false)
unfolding handle_stop
handle_stop_none now w e = rw e refl

module _ (create : ℕ → ℕ → Fut (Result (Unit {0}) (ℕ × BoxedService))) where
  module _ (again : ServerWorker → Polled) (now : ℕ) (w : ServerWorker) where
    pub by_state-unavailable :
        w.state ≡ WorkerState.unavailable
        → by_state create again now w ≡ on_unavailable create again (check_readiness w)
    unfolding by_state
    by_state-unavailable e = rw e refl

    by_state-available :
        w.state ≡ WorkerState.available
        → by_state create again now w ≡ serve create again w.conn_rx w
    unfolding by_state
    by_state-available e = rw e refl

  on_unavailable-Serves :
      (n : ℕ) (again : ServerWorker → Polled) (w : ServerWorker)
      → IsFit w
      → w.state ≡ WorkerState.unavailable
      → 2 * answers_left w.services ≤ n
      → ((v : ServerWorker) → IsFit v → HasFuel n v → Serves v (again v))
      → Serves w (on_unavailable create again (check_readiness w))
  on_unavailable-Serves n again w f st l next =
      let (ss, b, e, c) = check_readiness_lem w f.healthy in after ss b e c
    where
      after :
          (ss : List WorkerService) (b : Bool)
          → check_readiness w ≡ (with_services w ss, ok b)
          → IsChecked w.services ss b
          → Serves w (on_unavailable create again (check_readiness w))
      after ss true e c =
          let v = record w { services = ss; state = WorkerState.available } in
          let (f', s) = checked-IsFit w ss true WorkerState.available 0 f c (omega arith) in
          rw e (
            Serves-trans 1 w v (again v) s
              (next v f' (inr (refl, omega (arith, c.used refl, f.nonempty)))))
      after ss false e c =
          let (f', s) = checked-IsFit w ss false w.state 0 f c (omega arith) in
          rw e (f', 0, s, inr (sym c.told, st))

  -- A worker whose services are healthy and that nobody stops: with fuel for the services' answers a
  -- poll ends, pending. A first part of the queue has been dispatched in its order, each connection
  -- to the service of its token, and no more connections than there were checks that found every
  -- service ready. At the last check either every service was ready, the queue is empty and the
  -- worker is available, or one was not ready and the worker is unavailable.
  pub poll-Serves :
      (n now : ℕ) (w : ServerWorker) → IsFit w → HasFuel n w → Serves w (poll create n now w)
  unfolding poll
  poll-Serves zero now w f (inl (e, l)) = absurd (omega arith)
  poll-Serves zero now w f (inr (e, l)) = absurd (omega arith)
  poll-Serves (suc n) now w f (inl (e, l)) =
      rw (handle_stop_none now w f.unstopped, by_state-unavailable _ now w e)
        (on_unavailable-Serves n _ w f e (omega (arith, l)) (λ v g h. poll-Serves n now v g h))
  poll-Serves (suc n) now w f (inr (e, l)) =
      rw (handle_stop_none now w f.unstopped, by_state-available _ now w e)
        (serve-Serves create _ (answers_left w.services)
          (λ v g st m. poll-Serves n now v g (inl (st, omega (arith, l, m)))) w.conn_rx w f refl e
          (omega arith))
