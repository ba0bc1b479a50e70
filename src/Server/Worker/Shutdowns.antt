-- ===== src/Server/Worker/Shutdowns.antt =====
-- The whole shutdown of a worker (actix-server/src/worker.rs): its polls, and what happens between.
use actix_net.Prelude.{
  ℕ, ◌+◌, ◌≤◌, ◌<◌, ◌≡◌, ap, ◌∙◌, Bool, List, [], ◌∷◌, ◌++◌, length, Result, pending, ready, ◌==◌,
  arith, inl, inr, ◌⊎◌,
}
use actix_net.Prelude.Futures.{Fut}
use actix_net.Prelude.Panics.{done, panicked, out_of_fuel}
use actix_net.Server.Handle.Laws.{IsLoad}
use actix_net.Server.Worker.{BoxedService, Shutdown, ServerWorker}
use actix_net.Server.Worker.Polling.{Polled, shutdown_poll_interval, poll}
use actix_net.Server.Worker.Stops.{IsStopping, StopsWith, poll-StopsWith}

-- What happens to a worker between two polls of its shutdown: connections come and go, and each that
-- is queued or at work is counted.
pub record IsOutside (e : ServerWorker → ServerWorker) : Type 0 where
  pub state : (w : ServerWorker) → (e w).state ≡ w.state
  pub stops : (w : ServerWorker) → (e w).stop_rx ≡ w.stop_rx
  pub told : (w : ServerWorker) → (e w).told ≡ w.told
  pub timeout : (w : ServerWorker) → (e w).shutdown_timeout ≡ w.shutdown_timeout
  pub counted :
      (w : ServerWorker) (m : ℕ)
      → IsLoad w.counter (length w.conn_rx + m)
      → (m' : ℕ) × IsLoad (e w).counter (length (e w).conn_rx + m')

-- One of the polls is at the bound or later.
abbrev pub Reaches : ℕ → List (ℕ × (ServerWorker → ServerWorker)) → Type 0
Reaches bound [] = ⊥
Reaches bound ((now, e) ∷ rest) = (bound ≤ now) ⊎ Reaches bound rest

abbrev pub AllOutside : List (ℕ × (ServerWorker → ServerWorker)) → Type 0
AllOutside [] = Unit
AllOutside ((now, e) ∷ rest) = IsOutside e × AllOutside rest

module _ (create : ℕ → ℕ → Fut (Result (Unit {0}) (ℕ × BoxedService))) where
  abbrev on_polled : (ServerWorker → Polled) → Polled → Polled
  on_polled again (done (w, pending)) = again w
  on_polled again (done (w, ready x)) = done (w, ready x)
  on_polled again panicked = panicked
  on_polled again out_of_fuel = out_of_fuel

  -- Polls at given times, up to the one that is ready; what happens before each is given too.
  unfoldable pub poll_times : List (ℕ × (ServerWorker → ServerWorker)) → ServerWorker → Polled
  poll_times [] w = done (w, pending)
  poll_times ((now, e) ∷ rest) w = on_polled (λ v. poll_times rest v) (poll create 1 now (e w))

  abbrev pub Ended : ServerWorker → Shutdown → Polled → Type 0
  Ended w s (done (w', ready x)) = (b : Bool) × (w'.told ≡ w.told ++ (s.tx, b) ∷ [])
  Ended w s (done (w', pending)) = ⊥
  Ended w s panicked = ⊥
  Ended w s out_of_fuel = ⊥

  Ended-later :
      (w w' : ServerWorker) (s s' : Shutdown) (o : Polled)
      → w'.told ≡ w.told
      → s'.tx ≡ s.tx
      → Ended w' s' o
      → Ended w s o
  Ended-later w w' s s' (done (v, ready x)) t u (b, e) = (b, rw (← t, ← u) e)
  Ended-later w w' s s' (done (v, pending)) t u k = k
  Ended-later w w' s s' panicked t u k = k
  Ended-later w w' s s' out_of_fuel t u k = k

  outside-IsStopping :
      (e : ServerWorker → ServerWorker) (w : ServerWorker) (s : Shutdown)
      → IsOutside e
      → IsStopping w s
      → IsStopping (e w) s
  outside-IsStopping e w s o st = record {
    state = o.state w ∙ st.state;
    unstopped = o.stops w ∙ st.unstopped;
    within = omega (arith, o.timeout w, st.within);
  }

  -- A graceful shutdown ends: with each connection that is queued or at work counted, whatever
  -- connections do between the polls, a poll at the timeout and an interval after the start, or
  -- later, or an earlier one, is ready, and the outcome has been told, once.
  pub poll_times-Ended :
      (ts : List (ℕ × (ServerWorker → ServerWorker))) (w : ServerWorker) (s : Shutdown) (m : ℕ)
      → AllOutside ts
      → IsStopping w s
      → IsLoad w.counter (length w.conn_rx + m)
      → Reaches (s.start_from + w.shutdown_timeout + shutdown_poll_interval) ts
      → Ended w s (poll_times ts w)
  unfolding poll_times
  poll_times-Ended [] w s m os st l r = r
  poll_times-Ended ((now, e) ∷ rest) w s m (o, os) st l r =
      let (m', l') = o.counted w m l in
      after m' (poll create 1 now (e w))
        (poll-StopsWith create 0 now (e w) s m' (outside-IsStopping e w s o st) l')
        (λ v s' st' k q. poll_times-Ended rest v s' m' os st' k q)
    where
      later_reaches :
          (bound : ℕ)
          → bound ≡ s.start_from + w.shutdown_timeout + shutdown_poll_interval
          → now < bound
          → Reaches bound rest
      later_reaches bound same lt = elim r [
        | inl at_bound ↦ absurd (omega arith)
        | inr q ↦ rw same q
      ]

      after :
          (m' : ℕ) (out : Polled)
          → StopsWith (e w) s m' now out
          → ((v : ServerWorker) (s' : Shutdown)
              → IsStopping v s'
              → IsLoad v.counter (length v.conn_rx + m')
              → Reaches (s'.start_from + v.shutdown_timeout + shutdown_poll_interval) rest
              → Ended v s' (poll_times rest v))
          → Ended w s (on_polled (λ v. poll_times rest v) out)
      after m' (done (v, ready x)) k go =
          (m' == 0, k.0 ∙ ap (λ l. l ++ (s.tx, m' == 0) ∷ []) (o.told w))
      after m' (done (v, pending)) (early, empty, load, s', same, on) go =
          Ended-later w v s s' (poll_times rest v) (same.told ∙ o.told w) same.tx (
            go v s' same.stopping
              (record {
                raw = omega (arith, load.raw, ap length empty);
                fits = omega (arith, load.fits, ap length empty);
              })
              (later_reaches _ (omega (arith, same.start, same.timeout, o.timeout w))
                (omega (arith, early, same.start, same.timeout, o.timeout w))))
      after m' panicked k go = k
      after m' out_of_fuel k go = k
