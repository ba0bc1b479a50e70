-- ===== src/Server/Commands/Stops.antt =====
-- A stop of the server (actix-server/src/server.rs): what happens, in which order, and when it ends.
use actix_net.Prelude.{
  ℕ, zero, suc, ◌≡◌, refl, sym, ap, ◌∙◌, subst, Bool, true, false, ◌||◌, List, [], ◌∷◌, ◌++◌, map,
  append_assoc, Option, ready, if◌then◌else◌, if_true,
}
use actix_net.Prelude.Panics.{done, ◌>>=◌}
use actix_net.Prelude.Futures.{Fut, resolved, later, never, poll_fut, then_fut}
use actix_net.Prelude.Tasks.{Answers, run, await, run-await}
use actix_net.Server.Handle.{WorkerHandle}
use actix_net.Server.Accept.{WakerInterest}
use actix_net.Server.Joins.{
  join_all, poll_all, delayed, latest, Items, state_of, still, polled, poll_all-ItemsStep,
  begun_items, state_of-begun_items, still-begun_items,
}
use actix_net.Server.Commands.{
  StopCommand, ServerCommand, WorkerHandleServer, Effect, woke, joined_accept, stopped_system,
  stopped_worker, ServerInner, emit, graceful_notice, begin_stop, Handling, begun, waiting,
  sleeping, HandlingPoll, answer_to, on_slept, after_workers, on_workers, stop_answers,
  on_stop_command, poll_handling,
}

-- What a stop does before the system's stop, in this order.
abbrev pub stop_effects : ServerInner → StopCommand → List Effect
stop_effects s c =
    graceful_notice c.graceful
    ++ (woke WakerInterest.stop
        ∷ (map (λ h. stopped_worker h.stop_tx c.graceful) s.worker_handles
            ++ (joined_accept ∷ answer_to c.completion)))

-- The server after it.
abbrev pub stopped : ServerInner → StopCommand → ServerInner
stopped s c = record s {
  accept_handle = false;
  stopping = true;
  effects = s.effects ++ stop_effects s c;
}

module _ (stop_answer : ℕ → Fut Bool) (sleep : Fut (Unit {0}))
    (start : ℕ → Option (WorkerHandle × WorkerHandleServer)) where
  -- The end of a stop: the system is stopped after the sleep, if it has to be.
  abbrev pub ending : Bool → ServerInner → Fut ServerInner
  ending true s = then_fut sleep λ x. resolved (emit s (stopped_system ∷ []))
  ending false s = resolved s

  abbrev joined_state : ServerInner → StopCommand → ServerInner
  joined_state s c =
      emit (emit (record s { accept_handle = false }) (joined_accept ∷ [])) (answer_to c.completion)

  abbrev after : ServerInner → StopCommand → Fut ServerInner
  after s c = ending (s.system_stop || c.force_system_stop) (joined_state s c)

  -- A graceful stop waits for the last of the workers' answers; a forced one does not wait.
  abbrev pub waits : Bool → ℕ → Fut ServerInner → Fut ServerInner
  waits true zero f = f
  waits true (suc k) f = later (waits true k f)
  waits false k f = f

  unfoldable pub IsWorth : Handling → Fut ServerInner → Type 0
  IsWorth (begun s (ServerCommand.stop c)) f =
      (ks : List (ℕ × Bool)) × (s.accept_handle ≡ true)
      × (stop_answers stop_answer sleep start s ≡ delayed ks)
      × (f ≡ waits c.graceful (latest ks) (after (begin_stop s c) c))
  IsWorth (begun s (ServerCommand.pause tx)) f = ⊥
  IsWorth (begun s (ServerCommand.resume tx)) f = ⊥
  IsWorth (begun s (ServerCommand.worker_faulted idx)) f = ⊥
  IsWorth (waiting js s c) f =
      (is : Items Bool) × (js ≡ state_of is)
      × (s.accept_handle ≡ true)
      × (f ≡ waits true (still is) (after s c))
  IsWorth (sleeping fut s) f = f ≡ then_fut fut λ x. resolved (emit s (stopped_system ∷ []))

  abbrev Leads : HandlingPoll → Fut ServerInner → Type 0
  Leads o f = Answers (poll_handling stop_answer sleep start) IsWorth o f

  on_slept-Leads :
      (fut : Fut (Unit {0})) (s : ServerInner)
      → Leads
          (on_slept s (poll_fut fut))
          (then_fut fut λ x. resolved (emit s (stopped_system ∷ [])))
  unfolding IsWorth
  on_slept-Leads (resolved x) s = (_, refl)
  on_slept-Leads (later fut) s = (_, refl, refl)
  on_slept-Leads never s = (_, refl, refl)

  ended-Leads :
      (b : Bool) (s : ServerInner)
      → Leads
          (if b then on_slept s (poll_fut sleep) else done (sleeping sleep s, ready s))
          (ending b s)
  ended-Leads true s = on_slept-Leads sleep s
  ended-Leads false s = (_, refl)

  after_workers-Leads :
      (s : ServerInner) (c : StopCommand)
      → s.accept_handle ≡ true
      → Leads (after_workers stop_answer sleep start s c) (after s c)
  unfolding after_workers
  after_workers-Leads s c a =
      subst (λ o. Leads o (after s c)) (sym (if_true s.accept_handle _ _ a))
        (ended-Leads (s.system_stop || c.force_system_stop) (joined_state s c))

  wait-Leads :
      (is : Items Bool) (k : ℕ) (s : ServerInner) (c : StopCommand)
      → still is ≡ k
      → s.accept_handle ≡ true
      → Leads
          (poll_all (state_of is) >>= on_workers stop_answer sleep start s c)
          (waits true k (after s c))
  unfolding IsWorth
  wait-Leads is zero s c e a =
      let (js, p) = poll_all-ItemsStep is zero e in rw p (after_workers-Leads s c a)
  wait-Leads is (suc k) s c e a =
      let (p, e') = poll_all-ItemsStep is (suc k) e in
      (waiting (state_of (polled is)) s c, rw p refl, (polled is, refl, a, rw e' refl))

  stop-Leads :
      (graceful : Bool) (s : ServerInner) (c : StopCommand) (fs : List (Fut Bool))
      (ks : List (ℕ × Bool))
      → fs ≡ delayed ks
      → s.accept_handle ≡ true
      → Leads
          (if graceful
            then (poll_all (join_all fs) >>= on_workers stop_answer sleep start s c)
            else after_workers stop_answer sleep start s c)
          (waits graceful (latest ks) (after s c))
  unfolding join_all
  stop-Leads true s c fs ks e a =
      rw (e, ← state_of-begun_items ks)
        (wait-Leads (begun_items ks) (latest ks) s c (still-begun_items ks) a)
  stop-Leads false s c fs ks e a = after_workers-Leads s c a

  pub poll_handling-Leads :
      (h : Handling) (f : Fut ServerInner)
      → IsWorth h f
      → Leads (poll_handling stop_answer sleep start h) f
  unfolding IsWorth poll_handling on_stop_command begin_stop
  poll_handling-Leads (begun s (ServerCommand.stop c)) f (ks, a, e, w) =
      rw w
        (stop-Leads c.graceful (begin_stop s c) c (stop_answers stop_answer sleep start s) ks e a)
  poll_handling-Leads (begun s (ServerCommand.pause tx)) f w = absurd w
  poll_handling-Leads (begun s (ServerCommand.resume tx)) f w = absurd w
  poll_handling-Leads (begun s (ServerCommand.worker_faulted idx)) f w = absurd w
  poll_handling-Leads (waiting js s c) f (is, j, a, w) =
      rw (w, j) (wait-Leads is (still is) s c refl a)
  poll_handling-Leads (sleeping fut s) f w = rw w (on_slept-Leads fut s)

  regroup :
      (e g m a : List Effect) (w j : Effect)
      → ((((e ++ g) ++ w ∷ []) ++ m) ++ j ∷ []) ++ a ≡ e ++ (g ++ w ∷ (m ++ j ∷ a))
  regroup e g m a w j =
      append_assoc (((e ++ g) ++ w ∷ []) ++ m) (j ∷ []) a
      ∙ append_assoc ((e ++ g) ++ w ∷ []) m (j ∷ a)
      ∙ append_assoc (e ++ g) (w ∷ []) (m ++ j ∷ a)
      ∙ append_assoc e g (w ∷ (m ++ j ∷ a))

  joined_state-stopped :
      (s : ServerInner) (c : StopCommand) → joined_state (begin_stop s c) c ≡ stopped s c
  unfolding begin_stop
  joined_state-stopped s c =
      ap (λ es. record s { accept_handle = false; stopping = true; effects = es })
        (regroup s.effects (graceful_notice c.graceful) _ (answer_to c.completion) _ _)

  pub stop-IsWorth :
      (s : ServerInner) (c : StopCommand) (ks : List (ℕ × Bool))
      → s.accept_handle ≡ true
      → stop_answers stop_answer sleep start s ≡ delayed ks
      → IsWorth (begun s (ServerCommand.stop c)) (
          waits c.graceful
            (latest ks)
            (ending (s.system_stop || c.force_system_stop) (stopped s c)))
  unfolding IsWorth begin_stop
  stop-IsWorth s c ks a e = (
    ks,
    a,
    e,
    ap (λ t. waits c.graceful (latest ks) (ending (s.system_stop || c.force_system_stop) t))
        (sym (joined_state-stopped s c)),
  )

  -- Polls of the handling of a stop command, when the accept thread has not been joined and each
  -- worker's answer comes after some pending polls: a graceful stop is over with the last worker's
  -- answer, a forced one at once, or after the sleep when the system is stopped too. Its effects stand
  -- in this order: the notice of a graceful stop, the accept thread's stop, the workers' stops, the
  -- end of the accept thread, the completion, and the system's stop.
  pub run-stopped :
      (n : ℕ) (s : ServerInner) (c : StopCommand) (ks : List (ℕ × Bool))
      → s.accept_handle ≡ true
      → stop_answers stop_answer sleep start s ≡ delayed ks
      → run (poll_handling stop_answer sleep start) n (begun s (ServerCommand.stop c))
        ≡ done (
            await n (
              waits c.graceful
                (latest ks)
                (ending (s.system_stop || c.force_system_stop) (stopped s c))))
  run-stopped n s c ks a e =
      run-await (poll_handling stop_answer sleep start) IsWorth poll_handling-Leads n
        (begun s (ServerCommand.stop c)) _ (stop-IsWorth s c ks a e)
