-- ===== src/Rt/Arbiter/Order.antt =====
-- What an arbiter gives to its local set (actix-rt/src/arbiter.rs), over any sends and polls.
use actix_net.Prelude.{
  ◌≡◌, refl, ap, sym, ◌∙◌, Bool, true, false, ◌||◌, ◌&&◌, not, List, [], ◌∷◌, ◌++◌, append_assoc,
  append-nil, if◌then◌else◌, Bool-cases, inl, inr, if_elim, if_true, if_false,
}
use actix_net.Rt.Arbiter.{
  ArbiterCommand, stop, execute, ArbiterRunner, new_runner, send, spawn, stop_arbiter,
  poll_commands, is_pending, poll_runner,
}

-- What happens to an arbiter: a command through a handle, a poll of its thread's event loop, and the
-- drop of the last handle.
pub data Act {ℓ} (T : Type ℓ) : Type ℓ where
  spawns : T → Act T
  stops polls handles_dropped : Act T

none_stops : (a b : Bool) → (a && not b) ≡ true → b ≡ false
none_stops true true e = absurd (cc e)
none_stops true false e = refl
none_stops false true e = absurd (cc e)
none_stops false false e = refl

module _ {ℓ} {T : Type ℓ} where
  abbrev pub polled : ArbiterRunner T → ArbiterRunner T
  polled r = if r.alive then (poll_runner r).0 else r

  abbrev pub act : ArbiterRunner T → Act T → ArbiterRunner T
  act r (spawns t) = (spawn r t).0
  act r stops = (stop_arbiter r).0
  act r polls = polled r
  act r handles_dropped = record r { senders = false }

  abbrev pub acts : ArbiterRunner T → List (Act T) → ArbiterRunner T
  acts r [] = r
  acts r (a ∷ rest) = acts (act r a) rest

  -- The commands of the sends that succeeded.
  abbrev pub kept : ArbiterCommand T → Bool → List (ArbiterCommand T)
  kept cmd true = cmd ∷ []
  kept cmd false = []

  abbrev pub sent_by : ArbiterRunner T → Act T → List (ArbiterCommand T)
  sent_by r (spawns t) = kept (execute t) (spawn r t).1
  sent_by r stops = kept stop (stop_arbiter r).1
  sent_by r polls = []
  sent_by r handles_dropped = []

  abbrev pub sent : ArbiterRunner T → List (Act T) → List (ArbiterCommand T)
  sent r [] = []
  sent r (a ∷ rest) = sent_by r a ++ sent (act r a) rest

  -- The tasks of a list of commands up to the first stop, and whether there is one.
  abbrev pub before_stop : List (ArbiterCommand T) → List T
  before_stop [] = []
  before_stop (stop ∷ cs) = []
  before_stop (execute t ∷ cs) = t ∷ before_stop cs

  abbrev pub has_stop : List (ArbiterCommand T) → Bool
  has_stop [] = false
  has_stop (stop ∷ cs) = true
  has_stop (execute t ∷ cs) = has_stop cs

  -- A living runner has taken tasks only, and the rest of what was sent waits for it; a runner that
  -- has ended has spawned what was sent before the first stop.
  pub data IsRunning (r : ArbiterRunner T) (cs : List (ArbiterCommand T)) : Type ℓ where
    runs :
        r.alive ≡ true
        → before_stop cs ≡ r.spawned ++ before_stop r.rx
        → has_stop cs ≡ has_stop r.rx
        → IsRunning r cs
    ended : r.alive ≡ false → before_stop cs ≡ r.spawned → IsRunning r cs

  before_stop-append :
      (xs ys : List (ArbiterCommand T))
      → before_stop (xs ++ ys) ≡ before_stop xs ++ (if has_stop xs then [] else before_stop ys)
  before_stop-append [] ys = refl
  before_stop-append (stop ∷ xs) ys = refl
  before_stop-append (execute t ∷ xs) ys = ap (◌∷◌ t) (before_stop-append xs ys)

  pub has_stop-append :
      (xs ys : List (ArbiterCommand T)) → has_stop (xs ++ ys) ≡ (has_stop xs || has_stop ys)
  has_stop-append [] ys = refl
  has_stop-append (stop ∷ xs) ys = refl
  has_stop-append (execute t ∷ xs) ys = has_stop-append xs ys

  pub poll_commands_lem :
      (rx : List (ArbiterCommand T)) (senders : Bool) (spawned : List T)
      → ((poll_commands rx senders spawned).1 ≡ spawned ++ before_stop rx)
        × (is_pending (poll_commands rx senders spawned).2 ≡ (senders && not (has_stop rx)))
        × (is_pending (poll_commands rx senders spawned).2 ≡ true
            → (poll_commands rx senders spawned).0 ≡ [])
  unfolding poll_commands
  poll_commands_lem [] true spawned = (sym (append-nil spawned), refl, λ e. refl)
  poll_commands_lem [] false spawned = (sym (append-nil spawned), refl, λ e. refl)
  poll_commands_lem (stop ∷ rx) true spawned = (sym (append-nil spawned), refl, λ e. absurd (cc e))
  poll_commands_lem (stop ∷ rx) false spawned = (sym (append-nil spawned), refl, λ e. absurd (cc e))
  poll_commands_lem (execute t ∷ rx) senders spawned =
      let (a, b, c) = poll_commands_lem rx senders (spawned ++ t ∷ []) in
      (a ∙ append_assoc spawned (t ∷ []) (before_stop rx), b, c)

  add_command :
      (r : ArbiterRunner T) (cs : List (ArbiterCommand T)) (cmd : ArbiterCommand T)
      → r.alive ≡ true
      → IsRunning r cs
      → IsRunning (record r { rx = r.rx ++ cmd ∷ [] }) (cs ++ cmd ∷ [])
  add_command r cs cmd e (runs alive tasks same) =
      runs alive
        (rw (before_stop-append cs (cmd ∷ []), before_stop-append r.rx (cmd ∷ []), tasks, same)
          (append_assoc r.spawned (before_stop r.rx) _))
        (rw (has_stop-append cs (cmd ∷ []), has_stop-append r.rx (cmd ∷ []), same) refl)
  add_command r cs cmd e (ended gone tasks) = absurd (cc (e, gone))

  send-IsRunning :
      (r : ArbiterRunner T) (cs : List (ArbiterCommand T)) (cmd : ArbiterCommand T)
      → IsRunning r cs
      → IsRunning (send r cmd).0 (cs ++ kept cmd (send r cmd).1)
  send-IsRunning r cs cmd v =
      if_elim (λ (p : ArbiterRunner T × Bool). IsRunning p.0 (cs ++ kept cmd p.1)) r.alive _ _
        (λ e. add_command r cs cmd e v) (λ e. rw (append-nil cs) v)

  poll_alive :
      (r : ArbiterRunner T) (cs : List (ArbiterCommand T))
      → r.alive ≡ true
      → IsRunning r cs
      → IsRunning (poll_runner r).0 cs
  unfolding poll_runner
  poll_alive r cs e (ended gone tasks) = absurd (cc (e, gone))
  poll_alive r cs e (runs alive tasks same) =
      let (done_tasks, waits, empty) = poll_commands_lem r.rx r.senders r.spawned in
      elim (Bool-cases (is_pending (poll_commands r.rx r.senders r.spawned).2))
        as (λ c. IsRunning (poll_runner r).0 cs) [
          | inl p ↦
              runs p (rw (empty p) (tasks ∙ sym done_tasks ∙ sym (append-nil _)))
                (rw (empty p) (same ∙ none_stops r.senders (has_stop r.rx) (sym waits ∙ p)))
          | inr p ↦ ended p (tasks ∙ sym done_tasks)
        ]

  polled-IsRunning :
      (r : ArbiterRunner T) (cs : List (ArbiterCommand T))
      → IsRunning r cs
      → IsRunning (polled r) cs
  polled-IsRunning r cs v =
      if_elim (λ (s : ArbiterRunner T). IsRunning s cs) r.alive _ _ (λ e. poll_alive r cs e v)
        (λ e. v)

  dropped-IsRunning :
      (r : ArbiterRunner T) (cs : List (ArbiterCommand T))
      → IsRunning r cs
      → IsRunning (record r { senders = false }) cs
  dropped-IsRunning r cs (runs alive tasks same) = runs alive tasks same
  dropped-IsRunning r cs (ended gone tasks) = ended gone tasks

  act-IsRunning :
      (r : ArbiterRunner T) (cs : List (ArbiterCommand T)) (a : Act T)
      → IsRunning r cs
      → IsRunning (act r a) (cs ++ sent_by r a)
  unfolding spawn stop_arbiter
  act-IsRunning r cs (spawns t) v = send-IsRunning r cs (execute t) v
  act-IsRunning r cs stops v = send-IsRunning r cs stop v
  act-IsRunning r cs polls v = rw (append-nil cs) (polled-IsRunning r cs v)
  act-IsRunning r cs handles_dropped v = rw (append-nil cs) (dropped-IsRunning r cs v)

  acts-IsRunning :
      (hs : List (Act T)) (r : ArbiterRunner T) (cs : List (ArbiterCommand T))
      → IsRunning r cs
      → IsRunning (acts r hs) (cs ++ sent r hs)
  acts-IsRunning [] r cs v = rw (append-nil cs) v
  acts-IsRunning (a ∷ rest) r cs v =
      rw⁻¹ (append_assoc cs (sent_by r a) (sent (act r a) rest))
        (acts-IsRunning rest (act r a) (cs ++ sent_by r a) (act-IsRunning r cs a v))

  now_polled :
      (r : ArbiterRunner T) (cs : List (ArbiterCommand T))
      → IsRunning r cs
      → ((polled r).spawned ≡ before_stop cs)
        × (r.alive ≡ true → (polled r).alive ≡ (r.senders && not (has_stop cs)))
  unfolding poll_runner
  now_polled r cs (runs alive tasks same) =
      let (done_tasks, waits, empty) = poll_commands_lem r.rx r.senders r.spawned in
      (
        ap (λ (s : ArbiterRunner T). s.spawned) (if_true r.alive (poll_runner r).0 r alive)
            ∙ done_tasks
            ∙ sym tasks,
        λ e.
            ap (λ (s : ArbiterRunner T). s.alive) (if_true r.alive (poll_runner r).0 r alive)
            ∙ waits
            ∙ ap (λ b. r.senders && not b) (sym same),
      )
  now_polled r cs (ended gone tasks) = (
    ap (λ (s : ArbiterRunner T). s.spawned) (if_false r.alive (poll_runner r).0 r gone) ∙ sym tasks,
    λ e. absurd (cc (e, gone)),
  )

  -- After any sequence of commands through handles, polls and the drop of the handles, a poll of a new
  -- arbiter's loop has given to `spawn_local` exactly the tasks that were sent, with success, before
  -- the first stop that was sent, each once and in the order of the sends; and a loop that had not
  -- ended goes on exactly when a handle is left and no stop was sent.
  pub polled-acts :
      (hs : List (Act T))
      → ((polled (acts new_runner hs)).spawned ≡ before_stop (sent new_runner hs))
        × ((acts new_runner hs).alive ≡ true
            → (polled (acts new_runner hs)).alive
              ≡ ((acts new_runner hs).senders && not (has_stop (sent new_runner hs))))
  unfolding new_runner
  polled-acts hs =
      now_polled (acts new_runner hs) (sent new_runner hs)
        (acts-IsRunning hs new_runner [] (runs refl refl refl))
