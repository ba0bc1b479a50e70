-- ===== src/Rt/System.antt =====
-- actix-rt/src/system.rs: the commands of a system, the controller that carries them out, and the wait
-- for the system's end; and the start of an arbiter in arbiter.rs. A handle is the place of its
-- arbiter in the list of all runners; an exit code is the number of its 32 bits. The map of arbiters is
-- an association list, whose order no theorem reads.
pub mod Acts
pub mod Exits
pub mod Stops
use actix_net.Prelude.{
  ℕ, ◌+◌, ◌-◌, ◌^◌, Bool, true, false, List, [], ◌∷◌, ◌++◌, Option, none, some, get_elem?, set,
  length, ◌==◌, if◌then◌else◌, Poll, pending, ready, Result, ok, err,
}
use actix_net.Rt.Arbiter.{ArbiterRunner, new_runner, stop_arbiter}

pub data SystemCommand : Type 0 where
  exit : ℕ → SystemCommand
  register_arbiter : ℕ → ℕ → SystemCommand
  deregister_arbiter : ℕ → SystemCommand

-- The `SystemController` with its channel, the arbiters' runners, and the value of the channel that
-- tells the exit code; `stop_tx` says that its sender has not been taken, `running` that the
-- controller has not ended, `senders` that a system handle is left.
pub record System {ℓ} (T : Type ℓ) : Type ℓ where
  pub runners : List (ArbiterRunner T)
  pub cmd_rx : List SystemCommand
  pub arbiters : List (ℕ × ℕ)
  pub stop_tx : Bool
  pub stop_rx : Option ℕ
  pub running : Bool
  pub senders : Bool

-- `HashMap::remove` and `HashMap::insert`.
abbrev pub remove : ℕ → List (ℕ × ℕ) → List (ℕ × ℕ)
remove id [] = []
remove id ((k, arb) ∷ rest) =
    let others = remove id rest in if k == id then others else (k, arb) ∷ others

abbrev pub insert : ℕ → ℕ → List (ℕ × ℕ) → List (ℕ × ℕ)
insert id arb arbiters = (id, arb) ∷ remove id arbiters

-- One poll of `wait_for_stop`: the channel is closed when its sender is gone without a value.
abbrev pub wait_on : Bool → Option ℕ → Poll (Result (Unit {0}) ℕ)
wait_on running (some code) = ready (ok code)
wait_on true none = pending
wait_on false none = ready (err tt)

module _ {ℓ} {T : Type ℓ} where
  -- The state after `SystemController::new`, with no arbiter yet.
  unfoldable pub new_system : System T
  new_system = record {
    runners = [];
    cmd_rx = [];
    arbiters = [];
    stop_tx = true;
    stop_rx = none;
    running = true;
    senders = true;
  }

  abbrev pub stop_found :
      List (ArbiterRunner T) → ℕ → Option (ArbiterRunner T) → List (ArbiterRunner T)
  stop_found runners arb none = runners
  stop_found runners arb (some r) = set runners arb (stop_arbiter r).0

  abbrev pub stop_at : List (ArbiterRunner T) → ℕ → List (ArbiterRunner T)
  stop_at runners arb = stop_found runners arb (get_elem? runners arb)

  -- The loop over the arbiters' handles.
  unfoldable pub stop_all : List (ArbiterRunner T) → List (ℕ × ℕ) → List (ArbiterRunner T)
  stop_all runners [] = runners
  stop_all runners ((id, arb) ∷ rest) = stop_all (stop_at runners arb) rest

  -- The arms of `SystemController::poll`.
  unfoldable pub on_command : System T → SystemCommand → System T
  on_command s (exit code) =
      if s.stop_tx
      then record s {
        runners = stop_all s.runners s.arbiters;
        stop_tx = false;
        stop_rx = some code;
      }
      else record s { runners = stop_all s.runners s.arbiters }
  on_command s (register_arbiter id arb) = record s { arbiters = insert id arb s.arbiters }
  on_command s (deregister_arbiter id) = record s { arbiters = remove id s.arbiters }

  abbrev pub on_commands : System T → List SystemCommand → System T
  on_commands s [] = s
  on_commands s (cmd ∷ cmds) = on_commands (on_command s cmd) cmds

  -- `SystemController::poll`, which ends when no sender is left.
  unfoldable pub poll_controller : System T → System T × Poll (Unit {0})
  poll_controller s =
      let s' = on_commands (record s { cmd_rx = [] }) s.cmd_rx in
      (record s' { running = s.senders }, if s.senders then pending else ready tt)

  -- A send to the controller, which `System::stop_with_code` ignores the failure of.
  unfoldable pub send_command : System T → SystemCommand → System T
  send_command s cmd = if s.running then record s { cmd_rx = s.cmd_rx ++ cmd ∷ [] } else s

  -- `System::stop_with_code` and `System::stop`.
  unfoldable pub stop_with_code : System T → ℕ → System T
  unfolding send_command
  stop_with_code s code = send_command s (exit code)

  unfoldable pub stop_system : System T → System T
  unfolding stop_with_code
  stop_system s = stop_with_code s 0

  unfoldable pub poll_wait : System T → Poll (Result (Unit {0}) ℕ)
  poll_wait s = wait_on s.running s.stop_rx

  -- `Arbiter::try_with_tokio_rt`, by whether the thread, and then its runtime, can be started: the
  -- arbiter registers itself before it is given out. Of an error, no runner is left.
  unfoldable pub try_arbiter :
      {E : Type 0}
      → System T
      → ℕ
      → Result E (Unit {0})
      → Result E (Unit {0})
      → System T × Result E ℕ
  unfolding send_command
  try_arbiter s arb_id (err e) runtime = (s, err e)
  try_arbiter s arb_id (ok x) (err e) = (s, err e)
  try_arbiter s arb_id (ok x) (ok y) =
      let arb = length s.runners in
      (
        send_command (record s { runners = s.runners ++ new_runner ∷ [] })
            (register_arbiter arb_id arb),
        ok arb,
      )

  -- The end of an arbiter's thread, when its loop has ended.
  unfoldable pub deregister : System T → ℕ → System T
  unfolding send_command
  deregister s arb_id = send_command s (deregister_arbiter arb_id)

  -- `System::with_tokio_rt`: the first arbiter runs on the system's own thread, under the largest index.
  unfoldable pub with_tokio_rt : System T
  unfolding send_command new_system
  with_tokio_rt =
      send_command (record new_system { runners = new_runner ∷ [] })
        (register_arbiter (2 ^ 64 - 1) 0)

-- `SystemRunner::run`, given what `run_with_code` returns; `other` is the error of a code.
unfoldable pub run : {E : Type 0} → (ℕ → E) → Result E ℕ → Result E (Unit {0})
run other (err e) = err e
run other (ok code) = if code == 0 then ok tt else err (other code)
