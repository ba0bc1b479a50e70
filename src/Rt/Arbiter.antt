-- ===== src/Rt/Arbiter.antt =====
-- actix-rt/src/arbiter.rs: the commands to an arbiter, its handles, and the loop that runs them. The
-- channel of commands is a queue with two flags: whether the runner is there to receive, and whether
-- a sender is left. A future is a task of any type; `spawned` is what has been given to the local set.
-- A poll takes the whole queue: tokio's budget for one poll is left out.
pub mod Order
use actix_net.Prelude.{
  ℕ, Bool, true, false, List, [], ◌∷◌, ◌++◌, Poll, pending, ready, if◌then◌else◌,
}

pub data ArbiterCommand {ℓ} (T : Type ℓ) : Type ℓ where
  stop : ArbiterCommand T
  execute : T → ArbiterCommand T

-- `ArbiterRunner` with its channel.
pub record ArbiterRunner {ℓ} (T : Type ℓ) : Type ℓ where
  pub rx : List (ArbiterCommand T)
  pub alive : Bool
  pub senders : Bool
  pub spawned : List T

abbrev pub is_pending : Poll (Unit {0}) → Bool
is_pending pending = true
is_pending (ready x) = false

module _ {ℓ} {T : Type ℓ} where
  -- The runner of a new arbiter, whose handle keeps a sender.
  unfoldable pub new_runner : ArbiterRunner T
  new_runner = record { rx = []; alive = true; senders = true; spawned = [] }

  -- A send, which fails when the runner is gone.
  abbrev pub send : ArbiterRunner T → ArbiterCommand T → ArbiterRunner T × Bool
  send r cmd = if r.alive then (record r { rx = r.rx ++ cmd ∷ [] }, true) else (r, false)

  -- `ArbiterHandle::spawn`, and `spawn_fn` for the future of a function.
  unfoldable pub spawn : ArbiterRunner T → T → ArbiterRunner T × Bool
  spawn r future = send r (execute future)

  -- `ArbiterHandle::stop` and `Arbiter::stop`.
  unfoldable pub stop_arbiter : ArbiterRunner T → ArbiterRunner T × Bool
  stop_arbiter r = send r stop

  -- `ArbiterHandle::alive`.
  unfoldable pub is_alive : ArbiterRunner T → Bool
  is_alive r = r.alive

  -- The loop of `ArbiterRunner::poll`.
  unfoldable pub poll_commands :
      List (ArbiterCommand T) → Bool → List T → List (ArbiterCommand T) × List T × Poll (Unit {0})
  poll_commands [] senders spawned = ([], spawned, if senders then pending else ready tt)
  poll_commands (stop ∷ rx) senders spawned = (rx, spawned, ready tt)
  poll_commands (execute task_fut ∷ rx) senders spawned =
      poll_commands rx senders (spawned ++ task_fut ∷ [])

  -- `ArbiterRunner::poll`; a runner that is ready is dropped.
  unfoldable pub poll_runner : ArbiterRunner T → ArbiterRunner T × Poll (Unit {0})
  poll_runner r =
      let (rx, spawned, answer) = poll_commands r.rx r.senders r.spawned in
      (record r { rx = rx; spawned = spawned; alive = is_pending answer }, answer)
