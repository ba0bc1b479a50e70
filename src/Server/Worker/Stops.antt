-- ===== src/Server/Worker/Stops.antt =====
-- A worker that is stopped (actix-server/src/worker.rs): the stop message, and the polls of the
-- shutdown.
use actix_net.Prelude.{
  ℕ, suc, ◌+◌, ◌-◌, ◌≤◌, ◌<◌, ◌≡◌, refl, ap, ◌∙◌, true, false, List, [], ◌∷◌, ◌++◌, length, Result,
  pending, ready, ◌==◌, ltb, leb, arith, inl, inr, ◌⊎◌, Bool-cases, ==_iff,
}
use actix_net.Prelude.Futures.{Fut}
use actix_net.Prelude.Panics.{done, panicked, out_of_fuel}
use actix_net.Server.Handle.{Conn, total}
use actix_net.Server.Handle.Laws.{IsLoad, dec_lem, total-IsLoad}
use actix_net.Server.Worker.{
  BoxedService, WorkerState, Shutdown, ServerWorker, drop_guard, drop_queued,
}
use actix_net.Server.Worker.Serves.{handle_stop_none}
use actix_net.Server.Worker.Polling.{Polled, shutdown_poll_interval, on_shutdown, by_state, poll}

-- All that dropping the queue changes is the queue, the counter and the wake-ups.
pub record IsDrained (w w' : ServerWorker) (m : ℕ) : Type 0 where
  pub load : IsLoad w'.counter m
  pub queue : w'.conn_rx ≡ []
  pub state : w'.state ≡ w.state
  pub told : w'.told ≡ w.told
  pub timeout : w'.shutdown_timeout ≡ w.shutdown_timeout
  pub stops : w'.stop_rx ≡ w.stop_rx

-- Each queued connection is taken off the count.
pub drop_queued-IsDrained :
    (cs : List Conn) (w : ServerWorker) (m : ℕ)
    → IsLoad w.counter (length cs + m)
    → IsDrained w (drop_queued cs w) m
unfolding drop_queued drop_guard
drop_queued-IsDrained [] w m l = record {
  load = record { raw = omega (arith, l.raw); fits = omega (arith, l.fits) };
  queue = refl;
  state = refl;
  told = refl;
  timeout = refl;
  stops = refl;
}
drop_queued-IsDrained (c ∷ cs) w m l =
    let one : IsLoad w.counter (length cs + m + 1) = record {
      raw = omega (arith, l.raw);
      fits = omega (arith, l.fits);
    } in
    let d = drop_queued-IsDrained cs (drop_guard w) m (dec_lem w.counter (length cs + m) one).0 in
    record {
      load = d.load;
      queue = d.queue;
      state = d.state;
      told = d.told;
      timeout = d.timeout;
      stops = d.stops;
    }

-- The worker is shutting down, and its timer is no later than the last poll can be.
pub record IsStopping (w : ServerWorker) (s : Shutdown) : Type 0 where
  pub state : w.state ≡ WorkerState.shutdown s
  pub unstopped : w.stop_rx ≡ []
  pub within : s.timer ≤ s.start_from + w.shutdown_timeout + shutdown_poll_interval

-- The same shutdown at a later poll.
pub record IsSame (w w' : ServerWorker) (s s' : Shutdown) : Type 0 where
  pub stopping : IsStopping w' s'
  pub start : s'.start_from ≡ s.start_from
  pub tx : s'.tx ≡ s.tx
  pub timeout : w'.shutdown_timeout ≡ w.shutdown_timeout
  pub told : w'.told ≡ w.told

-- The shutdown goes on either as it is, before its timer, or with connections at work before the
-- timeout, until an interval from now.
abbrev pub GoesOn : ServerWorker → Shutdown → ℕ → ℕ → Shutdown → Type 0
GoesOn w s m now s' =
    ((now < s.timer) × (s'.timer ≡ s.timer))
    ⊎ ((s.timer ≤ now)
        × (0 < m)
        × (now - s.start_from < w.shutdown_timeout)
        × (s'.timer ≡ now + shutdown_poll_interval))

-- With `m` connections at work, a poll ends the worker exactly when the timer has passed and no
-- connection is left or the time is out, and says whether none was left. Else the shutdown goes on,
-- before its end.
abbrev pub StopsWith : ServerWorker → Shutdown → ℕ → ℕ → Polled → Type 0
StopsWith w s m now (done (w', ready x)) =
    (w'.told ≡ w.told ++ (s.tx, m == 0) ∷ [])
    × (w'.conn_rx ≡ [])
    × (s.timer ≤ now)
    × ((m ≡ 0) ⊎ (w.shutdown_timeout ≤ now - s.start_from))
StopsWith w s m now (done (w', pending)) =
    (now < s.start_from + w.shutdown_timeout + shutdown_poll_interval)
    × (w'.conn_rx ≡ [])
    × IsLoad w'.counter m
    × (s' : Shutdown) × IsSame w w' s s'
    × GoesOn w s m now s'
StopsWith w s m now panicked = ⊥
StopsWith w s m now out_of_fuel = ⊥

on_shutdown-StopsWith :
    (w w' : ServerWorker) (s : Shutdown) (m now : ℕ)
    → IsStopping w s
    → IsDrained w w' m
    → StopsWith w s m now (done (on_shutdown now w' s))
unfolding on_shutdown
on_shutdown-StopsWith w w' s m now st d = elim (Bool-cases (ltb now s.timer)) [
  | inl early ↦ rw early (
    ground (arith, st.within),
    d.queue,
    d.load,
    s,
    record {
      stopping = record {
        state = d.state ∙ st.state;
        unstopped = d.stops ∙ st.unstopped;
        within = omega (arith, d.timeout, st.within);
      };
      start = refl;
      tx = refl;
      timeout = d.timeout;
      told = d.told;
    },
    inl (ground arith, refl),
  )
  | inr due ↦
      let count : total w'.counter ≡ m = total-IsLoad w'.counter m d.load in
      let passed : s.timer ≤ now = ground arith in
      elim (Bool-cases (m == 0)) [
        | inl none_left ↦
            rw (due, count, none_left)
              (
                rw none_left (ap (λ l. l ++ (s.tx, true) ∷ []) d.told),
                d.queue,
                passed,
                inl ((==_iff m 0).0 none_left),
              )
        | inr left ↦ elim (Bool-cases (leb w'.shutdown_timeout (now - s.start_from))) [
          | inl out ↦
              rw (due, count, left, out)
                (
                  rw left (ap (λ l. l ++ (s.tx, false) ∷ []) d.told),
                  d.queue,
                  passed,
                  inr (ground (arith, d.timeout)),
                )
          | inr more ↦
              rw (due, count, left, more)
                (
                  ground (arith, d.timeout),
                  d.queue,
                  d.load,
                  record s { timer = now + shutdown_poll_interval },
                  record {
                    stopping = record {
                      state = refl;
                      unstopped = d.stops ∙ st.unstopped;
                      within = ground (arith, d.timeout);
                    };
                    start = refl;
                    tx = refl;
                    timeout = d.timeout;
                    told = d.told;
                  },
                  inr (passed, ground arith, ground (arith, d.timeout), refl),
                )
        ]
      ]
]

module _ (create : ℕ → ℕ → Fut (Result (Unit {0}) (ℕ × BoxedService))) where
  pub by_state-shutdown :
      (again : ServerWorker → Polled) (now : ℕ) (w : ServerWorker) (s : Shutdown)
      → w.state ≡ WorkerState.shutdown s
      → by_state create again now w ≡ done (on_shutdown now (drop_queued w.conn_rx w) s)
  unfolding by_state
  by_state-shutdown again now w s e = rw e refl

  -- A poll of a worker that is shutting down, when each connection that is queued or at work is
  -- counted: the queued ones are dropped and taken off the count, and the poll ends as `StopsWith`
  -- says.
  pub poll-StopsWith :
      (n now : ℕ) (w : ServerWorker) (s : Shutdown) (m : ℕ)
      → IsStopping w s
      → IsLoad w.counter (length w.conn_rx + m)
      → StopsWith w s m now (poll create (suc n) now w)
  unfolding poll
  poll-StopsWith n now w s m st l =
      rw (handle_stop_none now w st.unstopped, by_state-shutdown _ now w s st.state)
        (on_shutdown-StopsWith w (drop_queued w.conn_rx w) s m now st
          (drop_queued-IsDrained w.conn_rx w m l))
