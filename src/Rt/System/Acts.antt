-- ===== src/Rt/System/Acts.antt =====
-- What happens to a system (actix-rt/src/system.rs), and what of it the controller hears.
use actix_net.Prelude.{
  ℕ, ◌≡◌, refl, sym, subst, ap, ◌∙◌, Bool, true, false, ◌&&◌, List, [], ◌∷◌, ◌++◌, Option, none,
  some, get_elem?, set, if◌then◌else◌, if_elim, if_true, if_false,
}
use actix_net.Rt.Arbiter.{ArbiterRunner}
use actix_net.Rt.Arbiter.Order.{Act, act}
use actix_net.Rt.System.{
  SystemCommand, exit, register_arbiter, deregister_arbiter, System, on_command, on_commands,
  poll_controller, send_command,
}

-- What happens to a system: a command to its controller, a poll of the controller, the drop of the last
-- system handle, and an act on an arbiter.
pub data SystemAct {ℓ} (T : Type ℓ) : Type ℓ where
  sends : SystemCommand → SystemAct T
  polls drops : SystemAct T
  on_arbiter : ℕ → Act T → SystemAct T

module _ {ℓ} {T : Type ℓ} where
  abbrev pub polled_system : System T → System T
  polled_system s = if s.running then (poll_controller s).0 else s

  abbrev pub changed :
      List (ArbiterRunner T) → ℕ → Act T → Option (ArbiterRunner T) → List (ArbiterRunner T)
  changed runners arb a none = runners
  changed runners arb a (some r) = set runners arb (act r a)

  abbrev pub system_act : System T → SystemAct T → System T
  system_act s (sends cmd) = send_command s cmd
  system_act s polls = polled_system s
  system_act s drops = record s { senders = false }
  system_act s (on_arbiter arb a) = record s {
    runners = changed s.runners arb a (get_elem? s.runners arb);
  }

  abbrev pub system_acts : System T → List (SystemAct T) → System T
  system_acts s [] = s
  system_acts s (a ∷ rest) = system_acts (system_act s a) rest

  -- The commands that the controller was there to receive.
  abbrev pub accepted_by : System T → SystemAct T → List SystemCommand
  accepted_by s (sends cmd) = if s.running then cmd ∷ [] else []
  accepted_by s polls = []
  accepted_by s drops = []
  accepted_by s (on_arbiter arb a) = []

  abbrev pub accepted : System T → List (SystemAct T) → List SystemCommand
  accepted s [] = []
  accepted s (a ∷ rest) = accepted_by s a ++ accepted (system_act s a) rest

  -- Whether the controller runs after the acts and a poll: it ends with a poll without handles.
  abbrev pub still_runs : Bool → Bool → List (SystemAct T) → Bool
  still_runs senders running [] = running && senders
  still_runs senders running (sends cmd ∷ hs) = still_runs senders running hs
  still_runs senders running (polls ∷ hs) = still_runs senders (running && senders) hs
  still_runs senders running (drops ∷ hs) = still_runs false running hs
  still_runs senders running (on_arbiter arb a ∷ hs) = still_runs senders running hs

  -- The commands that are sent while the controller runs.
  abbrev pub heard : Bool → Bool → List (SystemAct T) → List SystemCommand
  heard senders running [] = []
  heard senders running (sends cmd ∷ hs) =
      if running then cmd ∷ heard senders running hs else heard senders running hs
  heard senders running (polls ∷ hs) = heard senders (running && senders) hs
  heard senders running (drops ∷ hs) = heard false running hs
  heard senders running (on_arbiter arb a ∷ hs) = heard senders running hs

  -- A state has these flags.
  abbrev HasFlags : Bool → Bool → System T → Type 0
  HasFlags senders running s = (s.senders ≡ senders) × (s.running ≡ running)

  on_command-HasFlags :
      (senders running : Bool) (cmd : SystemCommand) (s : System T)
      → HasFlags senders running s
      → HasFlags senders running (on_command s cmd)
  unfolding on_command
  on_command-HasFlags senders running (exit code) s h =
      if_elim (HasFlags senders running) s.stop_tx _ _ (λ e. h) (λ e. h)
  on_command-HasFlags senders running (register_arbiter id arb) s h = h
  on_command-HasFlags senders running (deregister_arbiter id) s h = h

  on_commands-HasFlags :
      (senders running : Bool) (cmds : List SystemCommand) (s : System T)
      → HasFlags senders running s
      → HasFlags senders running (on_commands s cmds)
  on_commands-HasFlags senders running [] s h = h
  on_commands-HasFlags senders running (cmd ∷ cmds) s h =
      on_commands-HasFlags senders running cmds (on_command s cmd)
        (on_command-HasFlags senders running cmd s h)

  polled-HasFlags :
      (senders running : Bool) (s : System T)
      → HasFlags senders running s
      → HasFlags senders (running && senders) (polled_system s)
  unfolding poll_controller
  polled-HasFlags senders false s (h, k) =
      subst (HasFlags senders false) (sym (if_false s.running (poll_controller s).0 s k)) (h, k)
  polled-HasFlags senders true s (h, k) =
      subst (HasFlags senders senders) (sym (if_true s.running (poll_controller s).0 s k))
        ((on_commands-HasFlags senders true s.cmd_rx (record s { cmd_rx = [] }) (h, k)).0, h)

  act-HasFlags :
      (senders running : Bool) (cmd : SystemCommand) (s : System T)
      → HasFlags senders running s
      → HasFlags senders running (send_command s cmd)
  unfolding send_command
  act-HasFlags senders running cmd s h =
      if_elim (HasFlags senders running) s.running _ _ (λ e. h) (λ e. h)

  pub acts-still_runs :
      (hs : List (SystemAct T)) (senders running : Bool) (s : System T)
      → HasFlags senders running s
      → (polled_system (system_acts s hs)).running ≡ still_runs senders running hs
  acts-still_runs [] senders running s h = (polled-HasFlags senders running s h).1
  acts-still_runs (sends cmd ∷ hs) senders running s h =
      acts-still_runs hs senders running _ (act-HasFlags senders running cmd s h)
  acts-still_runs (polls ∷ hs) senders running s h =
      acts-still_runs hs senders _ _ (polled-HasFlags senders running s h)
  acts-still_runs (drops ∷ hs) senders running s h = acts-still_runs hs false running _ (refl, h.1)
  acts-still_runs (on_arbiter arb a ∷ hs) senders running s h =
      acts-still_runs hs senders running _ h

  pub acts-heard :
      (hs : List (SystemAct T)) (senders running : Bool) (s : System T)
      → HasFlags senders running s
      → accepted s hs ≡ heard senders running hs
  acts-heard [] senders running s h = refl
  acts-heard (sends cmd ∷ hs) senders true s h =
      ap (λ cs. cs ++ accepted (send_command s cmd) hs) (if_true s.running (cmd ∷ []) [] h.1)
      ∙ ap (◌∷◌ cmd) (acts-heard hs senders true _ (act-HasFlags senders true cmd s h))
  acts-heard (sends cmd ∷ hs) senders false s h =
      ap (λ cs. cs ++ accepted (send_command s cmd) hs) (if_false s.running (cmd ∷ []) [] h.1)
      ∙ acts-heard hs senders false _ (act-HasFlags senders false cmd s h)
  acts-heard (polls ∷ hs) senders running s h =
      acts-heard hs senders _ _ (polled-HasFlags senders running s h)
  acts-heard (drops ∷ hs) senders running s h = acts-heard hs false running _ (refl, h.1)
  acts-heard (on_arbiter arb a ∷ hs) senders running s h = acts-heard hs senders running _ h
