-- ===== src/Server/Worker/StopRequests.antt =====
-- The stop message of a worker (actix-server/src/worker.rs), on each of its branches.
use actix_net.Prelude.{
  ℕ, suc, ◌+◌, ◌<◌, ◌≡◌, refl, ◌∙◌, true, false, List, [], ◌∷◌, ◌++◌, length, Result, pending,
  ready, ◌==◌, ltb, arith, inl, inr, ◌⊎◌, Bool-cases, ==_iff,
}
use actix_net.Prelude.Futures.{Fut}
use actix_net.Prelude.Panics.{done, panicked, out_of_fuel}
use actix_net.Server.Handle.{total}
use actix_net.Server.Handle.Laws.{IsLoad, total-IsLoad}
use actix_net.Server.Worker.{
  BoxedService, WorkerState, Shutdown, Stop, ServerWorker, drop_queued, shutdown_services,
}
use actix_net.Server.Worker.Polling.{
  Polled, shutdown_poll_interval, on_stop, handle_stop, on_shutdown, by_state, poll,
}
use actix_net.Server.Worker.Stops.{IsDrained, drop_queued-IsDrained, by_state-shutdown}

-- With `n` connections queued or at work: an idle worker ends and says so, a forced stop ends a busy
-- one and says that it was, and a graceful one begins the shutdown.
abbrev pub Stopped : ServerWorker → Stop → List Stop → ℕ → ℕ → ℕ → Polled → Type 0
Stopped w s rest n m now (done (w', ready x)) =
    (w'.told ≡ w.told ++ (s.tx, n == 0) ∷ []) × ((n ≡ 0) ⊎ (s.graceful ≡ false))
Stopped w s rest n m now (done (w', pending)) =
    (s.graceful ≡ true)
    × (0 < n)
    × (w'.conn_rx ≡ [])
    × IsLoad w'.counter m
    × (w'.told ≡ w.told)
    × (w'.stop_rx ≡ rest)
    × (w'.state
        ≡ WorkerState.shutdown
            (record { timer = now + shutdown_poll_interval; start_from = now; tx = s.tx }))
Stopped w s rest n m now panicked = ⊥
Stopped w s rest n m now out_of_fuel = ⊥

handle_stop_some :
    (now : ℕ) (w : ServerWorker) (s : Stop) (rest : List Stop)
    → w.stop_rx ≡ s ∷ rest
    → handle_stop now w ≡ on_stop now (record w { stop_rx = rest }) s
unfolding handle_stop
handle_stop_some now w s rest e = rw e refl

module _ (create : ℕ → ℕ → Fut (Result (Unit {0}) (ℕ × BoxedService))) where
  -- The worker after a graceful stop, when the poll has gone on to the shutdown.
  began :
      (w : ServerWorker) (s : Shutdown) (m now : ℕ)
      → w.state ≡ WorkerState.shutdown s
      → s.timer ≡ now + shutdown_poll_interval
      → IsLoad w.counter (length w.conn_rx + m)
      → (w' : ServerWorker) × ((again : ServerWorker → Polled)
          → by_state create again now w ≡ done (w', pending))
        × IsDrained w w' m
  unfolding on_shutdown
  began w s m now st t l =
      let early : ltb now s.timer ≡ true = ground arith in
      (
        drop_queued w.conn_rx w,
        λ again. by_state-shutdown create again now w s st ∙ rw early refl,
        drop_queued-IsDrained w.conn_rx w m l,
      )

  -- A poll of a worker that has been asked to stop, when each connection that is queued or at work is
  -- counted, ends as `Stopped` says, whatever the worker's state.
  pub poll-Stopped :
      (n now : ℕ) (w : ServerWorker) (s : Stop) (rest : List Stop) (m : ℕ)
      → w.stop_rx ≡ s ∷ rest
      → IsLoad w.counter (length w.conn_rx + m)
      → Stopped w s rest (length w.conn_rx + m) m now (poll create (suc n) now w)
  unfolding poll on_stop
  poll-Stopped n now w s rest m e l =
      let count : total w.counter ≡ length w.conn_rx + m = total-IsLoad w.counter _ l in
      elim (Bool-cases (length w.conn_rx + m == 0)) [
        | inl y ↦ rw (handle_stop_some now w s rest e, count, y) (rw y refl, inl ((==_iff _ 0).0 y))
        | inr busy ↦ elim (Bool-cases s.graceful) [
          | inr forced ↦
              rw (handle_stop_some now w s rest e, count, busy, forced) (rw busy refl, inr refl)
          | inl soft ↦
              let sh : Shutdown = record {
                timer = now + shutdown_poll_interval;
                start_from = now;
                tx = s.tx;
              } in
              let v : ServerWorker =
                record (shutdown_services false (record w { stop_rx = rest })) {
                  state = WorkerState.shutdown sh;
                } in
              let (w', run, d) = began v sh m now refl refl l in
              rw (handle_stop_some now w s rest e, count, busy, soft)
                (rw (run (λ u. poll create n now u))
                  (refl, ground arith, d.queue, d.load, d.told, d.stops, d.state))
        ]
      ]
