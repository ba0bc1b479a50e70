-- ===== src/Server/Worker/Polling.antt =====
-- `<ServerWorker as Future>::poll` of actix-server/src/worker.rs. The poll calls itself again when the
-- state has changed: it has fuel. The loop that serves connections recurs on the queue;
-- a receive is pending only when the queue is empty, without tokio's budget and spurious answers.
use actix_net.Prelude.{
  ℕ, zero, suc, ◌+◌, ◌-◌, ◌==◌, ltb, leb, Bool, true, false, List, [], ◌∷◌, ◌++◌, Result, ok, err,
  Poll, pending, ready, if◌then◌else◌,
}
use actix_net.Prelude.Futures.{Fut, poll_fut}
use actix_net.Prelude.Panics.{Outcome, done, panicked, out_of_fuel, ◌>>=◌}
use actix_net.Server.Accept.{or_panic}
use actix_net.Server.Handle.{Conn, total}
use actix_net.Server.Worker.{
  BoxedService, created, Restart, Shutdown, WorkerState, Stop, ServerWorker, WorkerServiceStatus,
  check_readiness, shutdown_services, update_service, drop_queued,
}

abbrev pub shutdown_poll_interval : ℕ
shutdown_poll_interval = 1000

abbrev pub Polled : Type 0
Polled = Outcome (ServerWorker × Poll (Unit {0}))

abbrev pub tell : ServerWorker → ℕ → Bool → ServerWorker
tell w tx outcome = record w { told = w.told ++ (tx, outcome) ∷ [] }

-- The handler of a stop message; the second component tells whether the poll ends here.
unfoldable pub on_stop : ℕ → ServerWorker → Stop → ServerWorker × Bool
unfolding total shutdown_services
on_stop now w s =
    if total w.counter == 0
    then (tell w s.tx true, true)
    else if s.graceful
    then (
      record (shutdown_services false w) {
        state =
            WorkerState.shutdown
              (record { timer = now + shutdown_poll_interval; start_from = now; tx = s.tx });
      },
      false,
    )
    else (tell (shutdown_services true w) s.tx false, true)

unfoldable pub handle_stop : ℕ → ServerWorker → ServerWorker × Bool
handle_stop now w = elim (w.stop_rx) [
  | [] ↦ (w, false)
  | s ∷ rest ↦ on_stop now (record w { stop_rx = rest }) s
]

-- The end of the shutdown's poll, when the queue has been emptied.
unfoldable pub on_shutdown : ℕ → ServerWorker → Shutdown → ServerWorker × Poll (Unit {0})
on_shutdown now w s =
    if ltb now s.timer
    then (w, pending)
    else if total w.counter == 0
    then (tell (record w { state = WorkerState.unavailable }) s.tx true, ready tt)
    else if leb w.shutdown_timeout (now - s.start_from)
    then (tell (record w { state = WorkerState.unavailable }) s.tx false, ready tt)
    else (
      record w { state = WorkerState.shutdown (record s { timer = now + shutdown_poll_interval }) },
      pending,
    )

-- A call of the service that the connection's token names.
unfoldable pub dispatch : ServerWorker → Conn → Outcome ServerWorker
dispatch w conn = or_panic (
    update_service w conn.token
      λ s. record s { service = record (s.service) { calls = s.service.calls ++ conn ∷ [] } })

module _ (create : ℕ → ℕ → Fut (Result (Unit {0}) (ℕ × BoxedService))) where
  unfoldable pub restart_service : ServerWorker → ℕ → ℕ → Outcome ServerWorker
  restart_service w idx factory_id = do
    w' ← or_panic (update_service w idx λ s. record s { status = WorkerServiceStatus.restarting })
    done (record w' {
      state =
          WorkerState.restarting
            (record { factory_id = factory_id; token = idx; fut = create factory_id w.creations });
      creations = w.creations + 1;
    })

  -- What follows `check_readiness`: `go` when all is ready, and `again` is the poll itself.
  unfoldable pub on_readiness :
      (ServerWorker → Polled)
      → (ServerWorker → Polled)
      → ServerWorker × Result (ℕ × ℕ) Bool
      → Polled
  on_readiness again go (w, ok true) = go w
  on_readiness again go (w, ok false) = again (record w { state = WorkerState.unavailable })
  on_readiness again go (w, err (token, idx)) = restart_service w token idx >>= again

  -- The arm `WorkerState::Available`, by recursion on the connections that wait.
  unfoldable pub serve : (ServerWorker → Polled) → List Conn → ServerWorker → Polled
  serve again [] w = on_readiness again (λ w'. done (w', pending)) (check_readiness w)
  serve again (c ∷ cs) w =
      on_readiness again
        (λ w'. dispatch (record w' { conn_rx = cs }) c >>= λ w''. serve again cs w'')
        (check_readiness w)

  -- The arm `WorkerState::Unavailable`.
  abbrev pub on_unavailable : (ServerWorker → Polled) → ServerWorker × Result (ℕ × ℕ) Bool → Polled
  on_unavailable again (w, ok true) = again (record w { state = WorkerState.available })
  on_unavailable again (w, ok false) = done (w, pending)
  on_unavailable again (w, err (token, idx)) = restart_service w token idx >>= again

  -- The arm `WorkerState::Restarting`: an error of the factory, or another token, panics.
  abbrev pub on_created :
      (ServerWorker → Polled)
      → ServerWorker
      → Restart
      → Fut (Result (Unit {0}) (ℕ × BoxedService)) × Poll (Result (Unit {0}) (ℕ × BoxedService))
      → Polled
  on_created again w r (fut, pending) =
      done (record w { state = WorkerState.restarting (record r { fut = fut }) }, pending)
  on_created again w r (fut, ready (err x)) = panicked
  on_created again w r (fut, ready (ok (token_new, service))) =
      if r.token == token_new
      then (or_panic (update_service w r.token λ s. created s service) >>= λ w'.
          again (record w' { state = WorkerState.unavailable }))
      else panicked

  unfoldable pub by_state : (ServerWorker → Polled) → ℕ → ServerWorker → Polled
  by_state again now w = elim (w.state) [
    | WorkerState.unavailable ↦ on_unavailable again (check_readiness w)
    | WorkerState.restarting r ↦ on_created again w r (poll_fut r.fut)
    | WorkerState.shutdown s ↦ done (on_shutdown now (drop_queued w.conn_rx w) s)
    | WorkerState.available ↦ serve again w.conn_rx w
  ]

  abbrev pub after_stop : (ServerWorker → Polled) → ℕ → ServerWorker × Bool → Polled
  after_stop again now (w, true) = done (w, ready tt)
  after_stop again now (w, false) = by_state again now w

  unfoldable pub poll : ℕ → ℕ → ServerWorker → Polled
  poll zero now w = out_of_fuel
  poll (suc n) now w = after_stop (λ v. poll n now v) now (handle_stop now w)
