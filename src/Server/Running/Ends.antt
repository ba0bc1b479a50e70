-- ===== src/Server/Running/Ends.antt =====
-- The end of a server (actix-server/src/server.rs): the first stop that it meets, in its queue or by a
-- signal.
use actix_net.Prelude.{
  ℕ, zero, suc, ◌≡◌, refl, sym, ap, subst, Bool, true, false, ◌||◌, List, [], ◌∷◌, ◌++◌, Option,
  none, some, Poll, if_true,
}
use actix_net.Prelude.Panics.{Outcome, done, ◌>>=◌}
use actix_net.Prelude.Futures.{Fut, resolved, later, never, then_fut}
use actix_net.Prelude.Tasks.{Answers, run, await, run_step, run-await}
use actix_net.Server.Handle.{WorkerHandle}
use actix_net.Server.Joins.{delayed, latest}
use actix_net.Server.Commands.{
  SignalKind, StopCommand, ServerCommand, WorkerHandleServer, ServerInner, emit, map_signal,
  Handling, begun, poll_handling, drop_server, stop_answers, stopped_system,
}
use actix_net.Server.Commands.Stops.{
  stopped, ending, waits, IsWorth, poll_handling-Leads, stop-IsWorth,
}
use actix_net.Server.Running.{
  Multiplexer, poll_next, Running, idle, handling, on_handled, poll_server,
}
use actix_net.Server.Running.Queue.{quick_all, queue, rounds, quick_rounds}

-- What holds of a future's value, if it comes to one.
abbrev pub Ends {ℓ κ} : {A : Type ℓ} → (A → Type κ) → Fut A → Type κ
Ends P (resolved a) = P a
Ends P (later f) = Ends P f
Ends P never = Unit

abbrev IsStopped : ServerInner → Type 0
IsStopped s = s.stopping ≡ true

-- The state of a server that drops itself after a handling.
abbrev pub dropped : Fut ServerInner → Fut ServerInner
dropped f = then_fut f λ s. resolved (drop_server s)

-- The stop of a signal.
abbrev pub is_graceful : SignalKind → Bool
is_graceful SignalKind.cancel = true
is_graceful SignalKind.os_int = false
is_graceful SignalKind.os_term = true
is_graceful SignalKind.os_quit = false

abbrev pub signal_stop : SignalKind → StopCommand
signal_stop sig = record { graceful = is_graceful sig; completion = none; force_system_stop = true }

map_signal_lem : (sig : SignalKind) → map_signal sig ≡ ServerCommand.stop (signal_stop sig)
unfolding map_signal
map_signal_lem SignalKind.cancel = refl
map_signal_lem SignalKind.os_int = refl
map_signal_lem SignalKind.os_term = refl
map_signal_lem SignalKind.os_quit = refl

module _ (stop_answer : ℕ → Fut Bool) (sleep : Fut (Unit {0}))
    (start : ℕ → Option (WorkerHandle × WorkerHandleServer)) where
  IsStop : Running → Fut ServerInner → Type 0
  IsStop (idle s mux) g = ⊥
  IsStop (handling h mux) g =
      (f : Fut ServerInner) × IsWorth stop_answer sleep start h f
      × Ends IsStopped f
      × (g ≡ dropped f)

  handled-Answers :
      (n m : ℕ) (mux : Multiplexer) (o : Outcome (Handling × Poll ServerInner))
      (f : Fut ServerInner)
      → Answers (poll_handling stop_answer sleep start) (IsWorth stop_answer sleep start) o f
      → Ends IsStopped f
      → Answers
          (poll_server stop_answer sleep start n)
          IsStop
          (o
            >>= on_handled stop_answer sleep start
                (λ r. poll_server stop_answer sleep start m r)
                mux)
          (dropped f)
  unfolding IsStop
  handled-Answers n m mux o (resolved a) (h, e) ended =
      rw e (idle a mux, if_true a.stopping _ _ ended)
  handled-Answers n m mux o (later f) (h, e, w) ended =
      rw e (handling h mux, refl, (f, w, ended, refl))
  handled-Answers n m mux o never (h, e, w) ended =
      rw e (handling h mux, refl, (never, w, tt, refl))

  poll_server-Answers :
      (n : ℕ) (r : Running) (g : Fut ServerInner)
      → IsStop r g
      → Answers
          (poll_server stop_answer sleep start (suc n))
          IsStop
          (poll_server stop_answer sleep start (suc n) r)
          g
  unfolding IsStop poll_server
  poll_server-Answers n (idle s mux) g w = absurd w
  poll_server-Answers n (handling h mux) g (f, w, ended, e) =
      rw e (
        handled-Answers (suc n) n mux _ f (poll_handling-Leads stop_answer sleep start h f w) ended)

  -- A stop ends with a server that is stopping.
  ending-Ends :
      (b : Bool) (s : ServerInner)
      → IsStopped s
      → Ends IsStopped (ending stop_answer sleep start b s)
  ending-Ends true s e = after_sleep sleep
    where
      after_sleep :
          (f : Fut (Unit {0}))
          → Ends IsStopped (then_fut f λ x. resolved (emit s (stopped_system ∷ [])))
      after_sleep (resolved x) = e
      after_sleep (later f) = after_sleep f
      after_sleep never = tt
  ending-Ends false s e = e

  waits-Ends :
      (b : Bool) (k : ℕ) (f : Fut ServerInner)
      → Ends IsStopped f
      → Ends IsStopped (waits stop_answer sleep start b k f)
  waits-Ends true zero f e = e
  waits-Ends true (suc k) f e = waits-Ends true k f e
  waits-Ends false k f e = e

  -- The future of a stop, and of the drop of the server after it.
  abbrev pub stop_fut : ServerInner → StopCommand → List (ℕ × Bool) → Fut ServerInner
  stop_fut s c ks =
      waits stop_answer sleep start c.graceful (latest ks)
        (ending stop_answer sleep start (s.system_stop || c.force_system_stop) (stopped s c))

  run-idle :
      (m k n : ℕ) (s s' : ServerInner) (mux mux' : Multiplexer) (c : StopCommand)
      (ks : List (ℕ × Bool))
      → poll_server stop_answer sleep start (suc k) (idle s mux)
        ≡ poll_server stop_answer sleep start
            (suc m)
            (handling (begun s' (ServerCommand.stop c)) mux')
      → s'.accept_handle ≡ true
      → stop_answers stop_answer sleep start s' ≡ delayed ks
      → run (poll_server stop_answer sleep start (suc k)) n (idle s mux)
        ≡ done (await n (dropped (stop_fut s' c ks)))
  unfolding poll_server
  run-idle m k zero s s' mux mux' c ks e a w = refl
  run-idle m k (suc n) s s' mux mux' c ks e a w =
      run_step (poll_server stop_answer sleep start (suc k)) IsStop n
        (λ r g h.
          run-await (poll_server stop_answer sleep start (suc k)) IsStop (poll_server-Answers k) n r
            g h)
        _ _
        (subst
          (λ o.
            Answers (poll_server stop_answer sleep start (suc k)) IsStop o
              (dropped (stop_fut s' c ks)))
          (sym e)
          (handled-Answers (suc k) m mux' _ (stop_fut s' c ks)
            (poll_handling-Leads stop_answer sleep start _ _
              (stop-IsWorth stop_answer sleep start s' c ks a w))
            (waits-Ends c.graceful (latest ks) _ (ending-Ends _ (stopped s' c) refl))))

  -- A server that runs, with no signal, on a queue whose first commands are pauses, resumes and
  -- faults of workers that it has, and then a stop: when the accept thread has not been joined
  -- and each worker's answer comes after some pending polls, its polls, with enough rounds for the
  -- queue, answer as the stop does that follows the first commands, and the server is dropped at
  -- the end of it; what stands behind the stop is not handled.
  pub run-server :
      (m n : ℕ) (s s' : ServerInner) (pre rest : List ServerCommand) (c : StopCommand)
      (senders : Bool) (ks : List (ℕ × Bool))
      → s.stopping ≡ false
      → quick_all start pre s ≡ some s'
      → s'.accept_handle ≡ true
      → stop_answers stop_answer sleep start s' ≡ delayed ks
      → run
          (poll_server stop_answer sleep start (suc (rounds pre (suc m))))
          n
          (idle s (queue (pre ++ ServerCommand.stop c ∷ rest) senders))
        ≡ done (await n (dropped (stop_fut s' c ks)))
  unfolding poll_server poll_next
  run-server m n s s' pre rest c senders ks running e a w =
      run-idle m (rounds pre (suc m)) n s s' _ (queue rest senders) c ks
        (quick_rounds stop_answer sleep start pre (suc m) s s' (ServerCommand.stop c ∷ rest) senders
          running e)
        a w

  -- A signal that is there comes before every command that waits: the polls of the server answer as
  -- the stop of the signal does, whatever is in the queue, and stop the system too.
  pub run-signal :
      (m n : ℕ) (s : ServerInner) (cmds : List ServerCommand) (sig : SignalKind) (senders : Bool)
      (ks : List (ℕ × Bool))
      → s.accept_handle ≡ true
      → stop_answers stop_answer sleep start s ≡ delayed ks
      → run
          (poll_server stop_answer sleep start (suc (suc m)))
          n
          (idle s (record { cmd_rx = cmds; senders = senders; signal_fut = some (resolved sig) }))
        ≡ done (await n (dropped (stop_fut s (signal_stop sig) ks)))
  unfolding poll_server poll_next
  run-signal m n s cmds sig senders ks a w =
      run-idle m (suc m) n s s _ (queue cmds senders) (signal_stop sig) ks
        (ap
          (λ cmd.
            poll_server stop_answer sleep start (suc m)
              (handling (begun s cmd) (queue cmds senders)))
          (map_signal_lem sig))
        a w
