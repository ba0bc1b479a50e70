-- ===== src/Local/Tests.antt =====
-- Runs of the task-local waker, counter and channel at concrete inputs.
use actix_net.Prelude.{ℕ, ◌==◌, ◌≡◌, refl, true, List, [], ◌∷◌, ◌++◌}
use actix_net.Local.Guards.{Use, get, drop_guard, ask, counter, use_all, IsFair, counter-IsFair}
use actix_net.Local.Channel.{
  channel, Act, send, close, add, drop_tx, poll, run, all_sent, all_received, all_allowed, sent,
  step, send_item, close_sender, add_sender, drop_sender, poll_next,
}
use actix_net.Local.Channel.Delivery.{IsAwake, channel-all_received, channel-IsAwake}

-- A guard is taken, a task waits for room, and the guard is dropped.
abbrev uses : List (Use ℕ)
uses = get ∷ ask 3 ∷ drop_guard ∷ get ∷ []

counter-IsFair_example :
    ((use_all ◌==◌ (counter 1) uses).count ≡ 1) × IsFair (use_all ◌==◌ (counter 1) uses)
counter-IsFair_example = counter-IsFair ◌==◌ 1 uses 1 refl

-- A task waits, two senders send, one of them closes, and the task reads.
abbrev acts : List (Act ℕ ℕ)
acts = poll 3 ∷ send 10 ∷ add ∷ send 20 ∷ poll 3 ∷ close ∷ send 30 ∷ drop_tx ∷ []

acts_ends :
    (all_sent ◌==◌ channel acts ≡ 10 ∷ 20 ∷ [])
    × ((run ◌==◌ channel acts).receiver ≡ true)
    × (all_allowed ◌==◌ channel acts ≡ true)
unfolding all_sent run all_allowed sent step send_item close_sender add_sender drop_sender poll_next
    channel
acts_ends = (refl, refl, refl)

channel-all_received_example :
    all_sent ◌==◌ channel acts ≡ all_received ◌==◌ channel acts ++ (run ◌==◌ channel acts).buffer
channel-all_received_example = channel-all_received ◌==◌ acts acts_ends.1

channel-IsAwake_example : IsAwake (run ◌==◌ channel acts)
channel-IsAwake_example = channel-IsAwake ◌==◌ acts acts_ends.2
