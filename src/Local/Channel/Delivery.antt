-- ===== src/Local/Channel/Delivery.antt =====
-- The channel of local-channel/src/mpsc.rs: the order of its items, and the waker that it keeps.
use actix_net.Prelude.{
  ◌<◌, ◌≡◌, refl, sym, ap, ◌∙◌, ◌==◌, Bool, true, not, ◌&&◌, ◌||◌, List, [], ◌∷◌, ◌++◌, append-nil,
  append_assoc, some, arith, Bool-cases, inl, inr, ◌⊎◌,
}
use actix_net.Local.Waker.{wake}
use actix_net.Local.Channel.{
  Shared, channel, send_item, close_sender, add_sender, drop_sender, drop_receiver, poll_next, Act,
  send, close, add, drop_tx, drop_rx, poll, allowed, step, sent, received, strong_count, run,
  all_sent, all_received, all_allowed,
}

-- A receiver that waits to be woken has nothing to read, and something may still come.
abbrev pub IsAwake : {W A : Type 0} → Shared W A → Type 0
IsAwake {W} c =
    c.receiver ≡ true
    → (w : W) → c.blocked_recv ≡ some w
    → (c.buffer ≡ []) × (c.has_receiver ≡ true) × (0 < c.senders)

cases_of : {A : Type 0} (xs : List A) → (xs ≡ []) ⊎ ((a : A) × (rest : List A) × (xs ≡ a ∷ rest))
cases_of [] = inl refl
cases_of (x ∷ xs) = inr (x, xs, refl)

-- The receiver is there after an act only if it was before, and then what was in the buffer and
-- what is sent is what is received and what stays in the buffer.
abbrev InOrder : {W A : Type 0} → Shared W A → List A → List A → Shared W A → Type 0
InOrder c s g c' = c'.receiver ≡ true → (c.receiver ≡ true) × (c.buffer ++ s ≡ g ++ c'.buffer)

module _ {W A : Type 0} (will_wake : W → W → Bool) where
  send-InOrder :
      (c : Shared W A) (a : A) → InOrder c (sent will_wake c (send a)) [] (send_item c a).0
  unfolding sent send_item wake
  send-InOrder c a = elim (Bool-cases c.has_receiver) [
    | inl y ↦ rw y (λ r. (r, refl))
    | inr n ↦ rw n (λ r. (r, append-nil c.buffer))
  ]

  drop_sender-InOrder : (c : Shared W A) → InOrder c [] [] (drop_sender c).0
  unfolding drop_sender wake
  drop_sender-InOrder c = elim (Bool-cases (c.has_receiver && (strong_count c == 2))) [
    | inl y ↦ rw y (λ r. (r, append-nil c.buffer))
    | inr n ↦ rw n (λ r. (r, append-nil c.buffer))
  ]

  poll-InOrder :
      (c : Shared W A) (w : W)
      → InOrder c [] (received will_wake c (poll w)) (poll_next will_wake c w).0
  unfolding received poll_next
  poll-InOrder c w = elim (cases_of c.buffer) [
    | inr (a, rest, e) ↦ rw e (λ r. (r, append-nil (a ∷ rest)))
    | inl e ↦ elim (Bool-cases (not c.has_receiver || (strong_count c == 1))) [
      | inl y ↦ rw (e, y) (λ r. (r, refl))
      | inr n ↦ rw (e, n) (λ r. (r, refl))
    ]
  ]

  step-InOrder :
      (c : Shared W A) (x : Act W A)
      → InOrder c (sent will_wake c x) (received will_wake c x) (step will_wake c x)
  unfolding step sent received close_sender add_sender drop_receiver wake
  step-InOrder c (send a) = send-InOrder c a
  step-InOrder c close = λ r. (r, append-nil c.buffer)
  step-InOrder c add = λ r. (r, append-nil c.buffer)
  step-InOrder c drop_tx = drop_sender-InOrder c
  step-InOrder c drop_rx = λ r. absurd (ground arith)
  step-InOrder c (poll w) = poll-InOrder c w

  run-InOrder :
      (xs : List (Act W A)) (c : Shared W A)
      → InOrder c (all_sent will_wake c xs) (all_received will_wake c xs) (run will_wake c xs)
  unfolding run all_sent all_received
  run-InOrder [] c r = (r, append-nil c.buffer)
  run-InOrder (x ∷ xs) c r =
      let (r', e') = run-InOrder xs (step will_wake c x) r in
      let (r'', e) = step-InOrder c x r' in
      (
        r'',
        sym (append_assoc c.buffer (sent will_wake c x) _)
            ∙ ap (λ l. l ++ all_sent will_wake (step will_wake c x) xs) e
            ∙ append_assoc (received will_wake c x) _ _
            ∙ ap (λ l. received will_wake c x ++ l) e'
            ∙ sym (append_assoc (received will_wake c x) _ _),
      )

  -- While the receiver has not been dropped, the items that senders have put in are those that polls
  -- have returned, in the same order, followed by those in the buffer.
  pub channel-all_received :
      (xs : List (Act W A))
      → (run will_wake channel xs).receiver ≡ true
      → all_sent will_wake channel xs
        ≡ all_received will_wake channel xs ++ (run will_wake channel xs).buffer
  unfolding channel
  channel-all_received xs r = (run-InOrder xs _ r).1

  send-IsAwake : (c : Shared W A) (a : A) → IsAwake c → IsAwake (send_item c a).0
  unfolding send_item wake
  send-IsAwake c a i = elim (Bool-cases c.has_receiver) [
    | inl y ↦ rw y (λ r w k. absurd (ground arith))
    | inr n ↦ rw n (λ r w k. ground (arith, i r w k))
  ]

  drop_sender-IsAwake : (c : Shared W A) → IsAwake c → 0 < c.senders → IsAwake (drop_sender c).0
  unfolding drop_sender wake
  drop_sender-IsAwake c i h = elim (Bool-cases (c.has_receiver && (strong_count c == 2))) [
    | inl y ↦ rw y (λ r w k. absurd (ground arith))
    | inr n ↦ rw n (λ r w k. ground (arith, i r w k, r))
  ]

  poll-IsAwake :
      (c : Shared W A) (w : W) → IsAwake c → c.receiver ≡ true → IsAwake (poll_next will_wake c w).0
  unfolding poll_next
  poll-IsAwake c w i h = elim (cases_of c.buffer) [
    | inr (a, rest, e) ↦ rw e (λ r v k. absurd (ground (arith, i r v k)))
    | inl e ↦ elim (Bool-cases (not c.has_receiver || (strong_count c == 1))) [
      | inl y ↦ rw (e, y) (λ r v k. (refl, (i r v k).1, (i r v k).2))
      | inr n ↦ rw (e, n) (λ r v k. ground arith)
    ]
  ]

  step-IsAwake :
      (c : Shared W A) (x : Act W A)
      → IsAwake c
      → allowed will_wake c x ≡ true
      → IsAwake (step will_wake c x)
  unfolding step close_sender add_sender drop_receiver wake
  step-IsAwake c (send a) i h = send-IsAwake c a i
  step-IsAwake c close i h = λ r w k. absurd (ground arith)
  step-IsAwake c add i h = λ r w k. ground (arith, i r w k)
  step-IsAwake c drop_tx i h = drop_sender-IsAwake c i (ground arith)
  step-IsAwake c drop_rx i h = λ r w k. absurd (ground arith)
  step-IsAwake c (poll w) i h = poll-IsAwake c w i h

  run-IsAwake :
      (xs : List (Act W A)) (c : Shared W A)
      → IsAwake c
      → all_allowed will_wake c xs ≡ true
      → IsAwake (run will_wake c xs)
  unfolding run all_allowed
  run-IsAwake [] c i h = i
  run-IsAwake (x ∷ xs) c i h =
      run-IsAwake xs (step will_wake c x) (step-IsAwake c x i (ground arith)) (ground arith)

  -- After any acts on a new channel by ends that are there, if the receiver is there and its waker
  -- is still kept, the buffer is empty, the channel is open and there is a sender.
  pub channel-IsAwake :
      (xs : List (Act W A))
      → all_allowed will_wake channel xs ≡ true
      → IsAwake (run will_wake channel xs)
  unfolding channel
  channel-IsAwake xs h = run-IsAwake xs _ (λ r w k. absurd (ground arith)) h
