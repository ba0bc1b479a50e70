-- ===== src/Local/Channel.antt =====
-- local-channel/src/mpsc.rs: a queue between tasks of one thread, its senders and its receiver.
pub mod Delivery
use actix_net.Prelude.{
  ℕ, suc, ◌+◌, ◌-◌, ◌==◌, ltb, Bool, true, false, not, ◌&&◌, ◌||◌, List, [], ◌∷◌, ◌++◌, Option,
  none, some, if◌then◌else◌, Result, ok, err, Poll, pending, ready,
}
use actix_net.Local.Waker.{register, wake}

-- `Shared`, with the number of senders and whether the receiver is there: these give the strong
-- count of the `Rc`.
pub record Shared (W A : Type 0) : Type 0 where
  pub buffer : List A
  pub blocked_recv : Option W
  pub has_receiver : Bool
  pub senders : ℕ
  pub receiver : Bool

module _ {W A : Type 0} where
  unfoldable pub channel : Shared W A
  channel = record {
    buffer = [];
    blocked_recv = none;
    has_receiver = true;
    senders = 1;
    receiver = true;
  }

  abbrev pub strong_count : Shared W A → ℕ
  strong_count c = c.senders + (if c.receiver then 1 else 0)

  -- The last component is the wakers whose tasks are woken.
  unfoldable pub send_item : Shared W A → A → Shared W A × Result A (Unit {0}) × List W
  unfolding wake
  send_item c item =
      if not c.has_receiver
      then (c, err item, [])
      else let (blocked, woken) = wake c.blocked_recv in
        (record c { buffer = c.buffer ++ item ∷ []; blocked_recv = blocked }, ok tt, woken)

  unfoldable pub close_sender : Shared W A → Shared W A × List W
  unfolding wake
  close_sender c =
      let (blocked, woken) = wake c.blocked_recv in
      (record c { has_receiver = false; blocked_recv = blocked }, woken)

  -- `Sender::clone` and `Receiver::sender`.
  unfoldable pub add_sender : Shared W A → Shared W A
  add_sender c = record c { senders = c.senders + 1 }

  unfoldable pub drop_sender : Shared W A → Shared W A × List W
  unfolding wake
  drop_sender c =
      let (blocked, woken) = wake c.blocked_recv in
      if c.has_receiver && (strong_count c == 2)
      then (record c { blocked_recv = blocked; senders = c.senders - 1 }, woken)
      else (record c { senders = c.senders - 1 }, [])

  unfoldable pub drop_receiver : Shared W A → Shared W A
  drop_receiver c = record c { buffer = []; has_receiver = false; receiver = false }

  unfoldable pub poll_next : (W → W → Bool) → Shared W A → W → Shared W A × Poll (Option A)
  poll_next will_wake c w = elim (c.buffer) [
    | msg ∷ rest ↦ (record c { buffer = rest }, ready (some msg))
    | [] ↦
        if not c.has_receiver || (strong_count c == 1)
        then (c, ready none)
        else (record c { blocked_recv = (register will_wake c.blocked_recv w).0 }, pending)
  ]

-- What the holders of the two ends do.
pub data Act (W A : Type 0) : Type 0 where
  send : A → Act W A
  close add drop_tx drop_rx : Act W A
  poll : W → Act W A

module _ {W A : Type 0} (will_wake : W → W → Bool) where
  -- An end that is used must be there. `add` is also a receiver's call.
  abbrev pub allowed : Shared W A → Act W A → Bool
  allowed c (send a) = ltb 0 c.senders
  allowed c close = ltb 0 c.senders
  allowed c add = ltb 0 c.senders || c.receiver
  allowed c drop_tx = ltb 0 c.senders
  allowed c drop_rx = c.receiver
  allowed c (poll w) = c.receiver

  unfoldable pub step : Shared W A → Act W A → Shared W A
  step c (send a) = (send_item c a).0
  step c close = (close_sender c).0
  step c add = add_sender c
  step c drop_tx = (drop_sender c).0
  step c drop_rx = drop_receiver c
  step c (poll w) = (poll_next will_wake c w).0

  -- What a call of `send` that returns `Ok` has put in, and what a poll has returned.
  abbrev pub accepted : Result A (Unit {0}) → A → List A
  accepted (ok x) a = a ∷ []
  accepted (err e) a = []

  abbrev pub returned : Poll (Option A) → List A
  returned (ready (some a)) = a ∷ []
  returned (ready none) = []
  returned pending = []

  unfoldable pub sent : Shared W A → Act W A → List A
  sent c (send a) = accepted (send_item c a).1 a
  sent c close = []
  sent c add = []
  sent c drop_tx = []
  sent c drop_rx = []
  sent c (poll w) = []

  unfoldable pub received : Shared W A → Act W A → List A
  received c (poll w) = returned (poll_next will_wake c w).1
  received c (send a) = []
  received c close = []
  received c add = []
  received c drop_tx = []
  received c drop_rx = []

  unfoldable pub run : Shared W A → List (Act W A) → Shared W A
  run c [] = c
  run c (x ∷ xs) = run (step c x) xs

  unfoldable pub all_sent : Shared W A → List (Act W A) → List A
  all_sent c [] = []
  all_sent c (x ∷ xs) = sent c x ++ all_sent (step c x) xs

  unfoldable pub all_received : Shared W A → List (Act W A) → List A
  all_received c [] = []
  all_received c (x ∷ xs) = received c x ++ all_received (step c x) xs

  unfoldable pub all_allowed : Shared W A → List (Act W A) → Bool
  all_allowed c [] = true
  all_allowed c (x ∷ xs) = allowed c x && all_allowed (step c x) xs
