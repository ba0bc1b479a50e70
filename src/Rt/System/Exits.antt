-- ===== src/Rt/System/Exits.antt =====
-- The exit code of a system (actix-rt/src/system.rs): the first one that was asked for.
use actix_net.Prelude.{
  ℕ, ◌≡◌, refl, ap, ◌∙◌, sym, subst, Bool, true, false, List, [], ◌∷◌, ◌++◌, append-nil,
  append_assoc, Option, none, some, Bool-cases, inl, inr, if_elim, if_true, if_false, Poll, pending,
  ready, Result, ok, err,
}
use actix_net.Rt.System.Acts.{
  SystemAct, sends, polls, drops, on_arbiter, polled_system, system_act, system_acts, accepted_by,
  accepted, still_runs, heard, acts-still_runs, acts-heard,
}
use actix_net.Rt.System.{
  SystemCommand, exit, register_arbiter, deregister_arbiter, System, with_tokio_rt, new_system,
  on_command, on_commands, poll_controller, send_command, wait_on, poll_wait,
}

-- The first value there is.
abbrev pub or_else : Option ℕ → Option ℕ → Option ℕ
or_else (some code) later = some code
or_else none later = later

abbrev pub exit_code : SystemCommand → Option ℕ
exit_code (exit code) = some code
exit_code (register_arbiter id arb) = none
exit_code (deregister_arbiter id) = none

abbrev pub first_exit : List SystemCommand → Option ℕ
first_exit [] = none
first_exit (cmd ∷ cmds) = or_else (exit_code cmd) (first_exit cmds)

or_else_assoc : (a b c : Option ℕ) → or_else (or_else a b) c ≡ or_else a (or_else b c)
or_else_assoc none b c = refl
or_else_assoc (some x) b c = refl

or_else-none : (a : Option ℕ) → or_else a none ≡ a
or_else-none none = refl
or_else-none (some x) = refl

first_exit-append :
    (xs ys : List SystemCommand) → first_exit (xs ++ ys) ≡ or_else (first_exit xs) (first_exit ys)
first_exit-append [] ys = refl
first_exit-append (x ∷ xs) ys =
    ap (or_else (exit_code x)) (first_exit-append xs ys)
    ∙ sym (or_else_assoc (exit_code x) (first_exit xs) (first_exit ys))

abbrev is_none : Option ℕ → Bool
is_none none = true
is_none (some x) = false

untold : (o : Option ℕ) (code : ℕ) → is_none o ≡ true → some code ≡ or_else o (some code)
untold none code e = refl
untold (some x) code e = absurd (cc e)

told_before : (o : Option ℕ) (code : ℕ) → is_none o ≡ false → o ≡ or_else o (some code)
told_before none code e = absurd (cc e)
told_before (some x) code e = refl

-- The answer of `wait_for_stop`, by whether the controller runs and the first exit.
abbrev pub IsAnswer : Bool → Option ℕ → Poll (Result (Unit {0}) ℕ) → Type 0
IsAnswer running (some code) p = p ≡ ready (ok code)
IsAnswer true none p = p ≡ pending
IsAnswer false none p = p ≡ ready (err tt)

poll_wait-IsAnswer {ℓ} :
    {T : Type ℓ} (s : System T) (running : Bool) (o : Option ℕ)
    → s.running ≡ running
    → s.stop_rx ≡ o
    → IsAnswer running o (poll_wait s)
unfolding poll_wait
poll_wait-IsAnswer s running (some code) h k = ap (wait_on s.running) k
poll_wait-IsAnswer s true none h k = ap (wait_on s.running) k ∙ ap (λ r. wait_on r none) h
poll_wait-IsAnswer s false none h k = ap (wait_on s.running) k ∙ ap (λ r. wait_on r none) h

module _ {ℓ} {T : Type ℓ} where
  -- The exit code that has been told is the first one of what was received, and what waits follows it.
  pub record Tells (s : System T) (cs : List SystemCommand) : Type ℓ where
    pub first : first_exit cs ≡ or_else s.stop_rx (first_exit s.cmd_rx)
    pub once : s.stop_tx ≡ is_none s.stop_rx
    pub drained : s.running ≡ false → s.cmd_rx ≡ []

  -- A state that a code may have been told in.
  abbrev Told : System T → Option ℕ → System T → Type 0
  Told s o s' =
      (s'.stop_rx ≡ or_else s.stop_rx o)
      × (s'.stop_tx ≡ is_none s'.stop_rx)
      × (s'.cmd_rx ≡ s.cmd_rx)

  on_command-Told :
      (s : System T) (cmd : SystemCommand)
      → s.stop_tx ≡ is_none s.stop_rx
      → Told s (exit_code cmd) (on_command s cmd)
  unfolding on_command
  on_command-Told s (exit code) once =
      if_elim (Told s (some code)) s.stop_tx _ _
        (λ e. (untold s.stop_rx code (sym once ∙ e), refl, refl))
        (λ e. (told_before s.stop_rx code (sym once ∙ e), once, refl))
  on_command-Told s (register_arbiter id arb) once = (sym (or_else-none s.stop_rx), once, refl)
  on_command-Told s (deregister_arbiter id) once = (sym (or_else-none s.stop_rx), once, refl)

  on_commands-Told :
      (cmds : List SystemCommand) (s : System T)
      → s.stop_tx ≡ is_none s.stop_rx
      → Told s (first_exit cmds) (on_commands s cmds)
  on_commands-Told [] s once = (sym (or_else-none s.stop_rx), once, refl)
  on_commands-Told (cmd ∷ cmds) s once =
      let (a, b, c) = on_command-Told s cmd once in
      let (d, e, f) = on_commands-Told cmds (on_command s cmd) b in
      (
        d
            ∙ ap (λ o. or_else o (first_exit cmds)) a
            ∙ or_else_assoc s.stop_rx (exit_code cmd) (first_exit cmds),
        e,
        f ∙ c,
      )

  poll_controller-Tells :
      (s : System T) (cs : List SystemCommand) → Tells s cs → Tells (poll_controller s).0 cs
  unfolding poll_controller
  poll_controller-Tells s cs v =
      let now : System T = on_commands (record s { cmd_rx = [] }) s.cmd_rx in
      let (a, b, c) = on_commands-Told s.cmd_rx (record s { cmd_rx = [] }) v.once in
      record {
        first =
            v.first
            ∙ sym a
            ∙ sym (or_else-none now.stop_rx)
            ∙ ap (λ q. or_else now.stop_rx (first_exit q)) (sym c);
        once = b;
        drained = λ e. c;
      }

  polled-Tells : (s : System T) (cs : List SystemCommand) → Tells s cs → Tells (polled_system s) cs
  polled-Tells s cs v =
      if_elim (λ (s' : System T). Tells s' cs) s.running _ _ (λ e. poll_controller-Tells s cs v)
        (λ e. v)

  act-Tells :
      (s : System T) (cs : List SystemCommand) (a : SystemAct T)
      → Tells s cs
      → Tells (system_act s a) (cs ++ accepted_by s a)
  unfolding send_command
  act-Tells s cs (sends cmd) v =
      if_elim (λ (s' : System T). Tells s' (cs ++ accepted_by s (sends cmd))) s.running _ _
        (λ e.
          subst (λ xs. Tells (record s { cmd_rx = s.cmd_rx ++ cmd ∷ [] }) (cs ++ xs))
            (sym (if_true s.running (cmd ∷ []) [] e))
            (record {
              first =
                  first_exit-append cs (cmd ∷ [])
                  ∙ ap (λ o. or_else o (first_exit (cmd ∷ []))) v.first
                  ∙ or_else_assoc s.stop_rx (first_exit s.cmd_rx) (first_exit (cmd ∷ []))
                  ∙ ap (or_else s.stop_rx) (sym (first_exit-append s.cmd_rx (cmd ∷ [])));
              once = v.once;
              drained = λ g. absurd (cc (e, g));
            }))
        (λ e.
          subst (λ xs. Tells s (cs ++ xs)) (sym (if_false s.running (cmd ∷ []) [] e))
            (subst (Tells s) (sym (append-nil cs)) v))
  act-Tells s cs polls v = rw (append-nil cs) (polled-Tells s cs v)
  act-Tells s cs drops v =
      rw (append-nil cs) (record { first = v.first; once = v.once; drained = v.drained })
  act-Tells s cs (on_arbiter arb a) v =
      rw (append-nil cs) (record { first = v.first; once = v.once; drained = v.drained })

  acts-Tells :
      (hs : List (SystemAct T)) (s : System T) (cs : List SystemCommand)
      → Tells s cs
      → Tells (system_acts s hs) (cs ++ accepted s hs)
  acts-Tells [] s cs v = subst (Tells s) (sym (append-nil cs)) v
  acts-Tells (a ∷ rest) s cs v =
      subst (Tells (system_acts (system_act s a) rest))
        (append_assoc cs (accepted_by s a) (accepted (system_act s a) rest))
        (acts-Tells rest (system_act s a) (cs ++ accepted_by s a) (act-Tells s cs a v))

  now_told :
      (s : System T) (cs : List SystemCommand)
      → Tells s cs
      → (polled_system s).stop_rx ≡ first_exit cs
  unfolding poll_controller
  now_told s cs v = elim (Bool-cases s.running) [
    | inl e ↦
        ap (λ (s' : System T). s'.stop_rx) (if_true s.running (poll_controller s).0 s e)
        ∙ (on_commands-Told s.cmd_rx (record s { cmd_rx = [] }) v.once).0
        ∙ sym v.first
    | inr e ↦
        ap (λ (s' : System T). s'.stop_rx) (if_false s.running (poll_controller s).0 s e)
        ∙ sym (or_else-none s.stop_rx)
        ∙ ap (λ q. or_else s.stop_rx (first_exit q)) (sym (v.drained e))
        ∙ sym v.first
  ]

  -- After any sequence of commands, polls of the controller, acts on arbiters and the drop of the
  -- handles, once the controller of a new system is polled, `wait_for_stop` is ready with the code of
  -- the first exit that was sent while the controller ran; without one it is pending while the
  -- controller runs, and an error when it has ended, which it does at a poll without handles.
  pub poll_wait-acts :
      (hs : List (SystemAct T))
      → IsAnswer
          (still_runs true true hs)
          (first_exit (heard true true hs))
          (poll_wait (polled_system (system_acts with_tokio_rt hs)))
  unfolding with_tokio_rt new_system send_command
  poll_wait-acts hs =
      poll_wait-IsAnswer (polled_system (system_acts with_tokio_rt hs)) (still_runs true true hs) _
        (acts-still_runs hs true true with_tokio_rt (refl, refl))
        (now_told (system_acts with_tokio_rt hs) _ (
            acts-Tells hs with_tokio_rt []
              (record { first = refl; once = refl; drained = λ e. absurd (cc e) }))
          ∙ ap first_exit (acts-heard hs true true with_tokio_rt (refl, refl)))
