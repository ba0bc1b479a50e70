-- ===== src/Server/Running/Queue.antt =====
-- The commands in a server's queue that are handled at once (actix-server/src/server.rs).
use actix_net.Prelude.{
  ℕ, suc, ◌≡◌, refl, sym, ap, ◌∙◌, subst, Bool, false, List, [], ◌∷◌, ◌++◌, Option, none, some,
  ready, if◌then◌else◌, if_true, if_false, Bool-cases, Option-cases, inl, inr,
}
use actix_net.Prelude.Panics.{done, ◌>>=◌}
use actix_net.Prelude.Futures.{Fut}
use actix_net.Server.Handle.{WorkerHandle}
use actix_net.Server.Accept.{WakerInterest}
use actix_net.Server.Commands.{
  ServerCommand, WorkerHandleServer, ServerInner, woke, answered, emit, any_idx, restarted,
  Handling, begun, sleeping, poll_handling,
}
use actix_net.Server.Running.{Multiplexer, poll_next, idle, on_handled, poll_server}

-- A queue without a signal, and the rounds that quick commands take.
abbrev pub queue : List ServerCommand → Bool → Multiplexer
queue cmds senders = record { cmd_rx = cmds; senders = senders; signal_fut = none }

abbrev pub rounds : List ServerCommand → ℕ → ℕ
rounds [] m = m
rounds (cmd ∷ cmds) m = suc (suc (rounds cmds m))

abbrev and_quick : (ServerInner → Option ServerInner) → Option ServerInner → Option ServerInner
and_quick k none = none
and_quick k (some s) = k s

restarted-stopping :
    (s : ServerInner) (idx : ℕ) (o : Option (WorkerHandle × WorkerHandleServer))
    → (restarted s idx o).stopping ≡ s.stopping
restarted-stopping s idx none = refl
restarted-stopping s idx (some (accept, server)) = refl

module _ (start : ℕ → Option (WorkerHandle × WorkerHandleServer)) where
  -- What the commands that are handled at once leave; a stop is none of them.
  abbrev pub quick : ServerInner → ServerCommand → Option ServerInner
  quick s (ServerCommand.pause tx) = some (emit s (woke WakerInterest.pause ∷ answered tx ∷ []))
  quick s (ServerCommand.resume tx) = some (emit s (woke WakerInterest.resume ∷ answered tx ∷ []))
  quick s (ServerCommand.worker_faulted idx) =
      if any_idx idx s.worker_handles then some (restarted s idx (start idx)) else none
  quick s (ServerCommand.stop c) = none

  abbrev pub quick_all : List ServerCommand → ServerInner → Option ServerInner
  quick_all [] s = some s
  quick_all (cmd ∷ cmds) s = and_quick (λ s'. quick_all cmds s') (quick s cmd)

module _ (stop_answer : ℕ → Fut Bool) (sleep : Fut (Unit {0}))
    (start : ℕ → Option (WorkerHandle × WorkerHandleServer)) where
  abbrev AtOnce : ServerInner → ServerCommand → ServerInner → Type 0
  AtOnce s cmd s' =
      ((h : Handling) × (poll_handling stop_answer sleep start (begun s cmd) ≡ done (h, ready s')))
      × (s'.stopping ≡ s.stopping)

  quick-AtOnce :
      (s : ServerInner) (cmd : ServerCommand) (s' : ServerInner)
      → quick start s cmd ≡ some s'
      → AtOnce s cmd s'
  unfolding poll_handling
  quick-AtOnce s (ServerCommand.pause tx) s' e =
      let t : ServerInner = emit s (woke WakerInterest.pause ∷ answered tx ∷ []) in
      let same : t ≡ s' = cc e in
      subst (AtOnce s (ServerCommand.pause tx)) same ((sleeping sleep t, refl), refl)
  quick-AtOnce s (ServerCommand.resume tx) s' e =
      let t : ServerInner = emit s (woke WakerInterest.resume ∷ answered tx ∷ []) in
      let same : t ≡ s' = cc e in
      subst (AtOnce s (ServerCommand.resume tx)) same ((sleeping sleep t, refl), refl)
  quick-AtOnce s (ServerCommand.worker_faulted idx) s' e =
      elim (Bool-cases (any_idx idx s.worker_handles)) [
        | inl y ↦
            let t : ServerInner = restarted s idx (start idx) in
            let found : some t ≡ some s' =
              sym (if_true (any_idx idx s.worker_handles) (some t) none y) ∙ e in
            let same : t ≡ s' = cc found in
            subst (AtOnce s (ServerCommand.worker_faulted idx)) same (
              (sleeping sleep t, if_true (any_idx idx s.worker_handles) _ _ y),
              restarted-stopping s idx (start idx),
            )
        | inr y ↦ absurd (
            cc (
              e,
              if_false (any_idx idx s.worker_handles) (some (restarted s idx (start idx))) none y,
            ))
      ]
  quick-AtOnce s (ServerCommand.stop c) s' e = absurd (cc e)

  quick_round :
      (k : ℕ) (s s' : ServerInner) (cmd : ServerCommand) (cmds : List ServerCommand)
      (senders : Bool)
      → s.stopping ≡ false
      → AtOnce s cmd s'
      → poll_server stop_answer sleep start (suc (suc k)) (idle s (queue (cmd ∷ cmds) senders))
        ≡ poll_server stop_answer sleep start k (idle s' (queue cmds senders))
  unfolding poll_server poll_next
  quick_round k s s' cmd cmds senders running ((h, e), same) =
      ap
        (λ o.
          o
          >>= on_handled stop_answer sleep start (λ r. poll_server stop_answer sleep start k r)
              (queue cmds senders))
        e
      ∙ if_false s'.stopping _ _ (same ∙ running)

  pub quick_rounds :
      (pre : List ServerCommand) (k : ℕ) (s s' : ServerInner) (rest : List ServerCommand)
      (senders : Bool)
      → s.stopping ≡ false
      → quick_all start pre s ≡ some s'
      → poll_server stop_answer sleep start
          (suc (rounds pre k))
          (idle s (queue (pre ++ rest) senders))
        ≡ poll_server stop_answer sleep start (suc k) (idle s' (queue rest senders))
  quick_rounds [] k s s' rest senders running e =
      let same : s ≡ s' = cc e in
      ap (λ t. poll_server stop_answer sleep start (suc k) (idle t (queue rest senders))) same
  quick_rounds (cmd ∷ pre) k s s' rest senders running e = elim (Option-cases (quick start s cmd)) [
    | inl n ↦
        let nothing = ap (and_quick (λ t. quick_all start pre t)) n in absurd (cc (e, nothing))
    | inr (t, q) ↦
        let rest_of = sym (ap (and_quick (λ u. quick_all start pre u)) q) ∙ e in
        let now = quick-AtOnce s cmd t q in
        quick_round (suc (rounds pre k)) s t cmd (pre ++ rest) senders running now
        ∙ quick_rounds pre k t s' rest senders (now.1 ∙ running) rest_of
  ]
