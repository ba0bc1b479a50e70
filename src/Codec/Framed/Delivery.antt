-- ===== src/Codec/Framed/Delivery.antt =====
-- What the writing half of `Framed` (actix-codec/src/framed.rs) delivers.
use actix_net.Prelude.{
  is_empty, ℕ, true, false, List, [], ◌∷◌, ◌++◌, ◌≡◌, ◌<◌, refl, take, drop, ◌==◌, ok, err, pending,
  ready, IoError, append_assoc, take-append-drop, arith, length, Bool-cases, inl, inr, ap, ◌∙◌,
  length-drop,
}
use actix_net.Codec.Utf8.{Bytes}
use actix_net.Codec.Framed.{
  Framed, Transport, WriteEvent, not_writable, refused, written, is_write_ready, hw,
}
use actix_net.Codec.Framed.Write.{Flushed, take_written, flush_loop, flush, poll_ready, close}

-- A transport that takes at least a byte with each call.
abbrev pub IsTaking : {O : Type 0} → List (WriteEvent O) → Type 0
IsTaking [] = Unit {0}
IsTaking (written n ∷ ws) = (0 < n) × IsTaking ws
IsTaking (not_writable ∷ ws) = ⊥
IsTaking (refused x ∷ ws) = ⊥

module _ {U O : Type 0} where
  -- All bytes given to the transport so far, and those that wait behind them.
  abbrev pub outgoing : Framed (Transport O) U → Bytes
  outgoing f = f.io.sent ++ f.write_buf

  take_written-outgoing :
      (f : Framed (Transport O) U) (n : ℕ) → outgoing (take_written f n) ≡ outgoing f
  unfolding take_written
  take_written-outgoing f n =
      append_assoc f.io.sent (take n f.write_buf) (drop n f.write_buf)
      ∙ ap (λ bs. f.io.sent ++ bs) (take-append-drop n f.write_buf)

module _ {U Err O : Type 0} where
  abbrev pub IsDelivered : Framed (Transport O) U → Flushed U O Err → Type 0
  IsDelivered f (g, ready (ok x)) = (outgoing g ≡ outgoing f) × (g.write_buf ≡ [])
  IsDelivered f (g, ready (err e)) = outgoing g ≡ outgoing f
  IsDelivered f (g, pending) = outgoing g ≡ outgoing f

  IsDelivered-trans :
      (f g : Framed (Transport O) U) (r : Flushed U O Err)
      → outgoing g ≡ outgoing f
      → IsDelivered g r
      → IsDelivered f r
  IsDelivered-trans f g (h, ready (ok x)) e d = (d.0 ∙ e, d.1)
  IsDelivered-trans f g (h, ready (err x)) e d = d ∙ e
  IsDelivered-trans f g (h, pending) e d = d ∙ e

module _ {U Err O : Type 0} (from_io : IoError O → Err) where
  flush_loop-IsDelivered :
      (ws : List (WriteEvent O)) (f : Framed (Transport O) U)
      → IsDelivered f (flush_loop from_io f ws)
  unfolding flush_loop
  flush_loop-IsDelivered [] f = refl
  flush_loop-IsDelivered (not_writable ∷ ws) f = refl
  flush_loop-IsDelivered (refused x ∷ ws) f = refl
  flush_loop-IsDelivered (written n ∷ ws) f = elim (Bool-cases (is_empty f.write_buf)) [
    | inl e ↦ rw e (refl, nil_of_is_empty f.write_buf e)
    | inr e ↦ elim (Bool-cases (n == 0)) [
      | inl z ↦ rw (e, z) refl
      | inr z ↦
          rw (e, z)
            (IsDelivered-trans f (take_written f n) (flush_loop from_io (take_written f n) ws)
              (take_written-outgoing f n) (flush_loop-IsDelivered ws (take_written f n)))
    ]
  ]
    where
      nil_of_is_empty : (bs : Bytes) → is_empty bs ≡ true → bs ≡ []
      nil_of_is_empty [] e = refl
      nil_of_is_empty (b ∷ bs) e = ground arith

  -- `flush` neither loses, repeats nor reorders bytes, whatever the transport answers, and returns
  -- success only when the buffer is empty.
  pub flush-IsDelivered : (f : Framed (Transport O) U) → IsDelivered f (flush from_io f)
  flush-IsDelivered f = unfold flush in flush_loop-IsDelivered f.io.writes f

  flush_loop_done :
      (ws : List (WriteEvent O)) (f : Framed (Transport O) U)
      → IsTaking ws
      → length f.write_buf < length ws
      → (flush_loop from_io f ws).1 ≡ ready (ok tt)
  unfolding flush_loop take_written
  flush_loop_done [] f t h = absurd (omega arith)
  flush_loop_done (not_writable ∷ ws) f t h = absurd t
  flush_loop_done (refused x ∷ ws) f t h = absurd t
  flush_loop_done (written n ∷ ws) f t h = elim (Bool-cases (is_empty f.write_buf)) [
    | inl e ↦ rw e refl
    | inr e ↦
        let z : (n == 0) ≡ false = ground arith in
        rw (e, z)
          (flush_loop_done ws (take_written f n) t.1
            (omega (arith, length-drop n f.write_buf, length_pos f.write_buf e)))
  ]
    where
      length_pos : (bs : Bytes) → is_empty bs ≡ false → 0 < length bs
      length_pos [] e = ground arith
      length_pos (b ∷ bs) e = omega arith

  -- On a transport that takes at least a byte each time, `flush` succeeds within one call more than
  -- there are bytes to write.
  pub flush_done :
      (f : Framed (Transport O) U)
      → IsTaking f.io.writes
      → length f.write_buf < length f.io.writes
      → (flush from_io f).1 ≡ ready (ok tt)
  flush_done f t h = unfold flush in flush_loop_done f.io.writes f t h

  -- After `poll_ready` succeeds there is room below the high-water mark.
  pub poll_ready-room :
      (f : Framed (Transport O) U)
      → (poll_ready from_io f).1 ≡ ready (ok tt)
      → length (poll_ready from_io f).0.write_buf < hw
  unfolding poll_ready
  poll_ready-room f h = elim (Bool-cases (is_write_ready f)) [
    | inl e ↦ rw (e, poll_ready) (unfold is_write_ready in ground arith)
    | inr e ↦
        rw (e, poll_ready)
          (empty_room (flush from_io f) (flush-IsDelivered f) (rw (e, poll_ready) at h))
  ]
    where
      empty_room :
          (r : Flushed U O Err) → IsDelivered f r → r.1 ≡ ready (ok tt) → length r.0.write_buf < hw
      empty_room (g, ready (ok x)) d e = omega (arith, ap length d.1)
      empty_room (g, ready (err x)) d e = cc
      empty_room (g, pending) d e = cc

  -- `close` leaves the write buffer as it is, and gives none of it to the transport.
  pub close-keeps :
      (f : Framed (Transport O) U)
      → ((close from_io f).0.write_buf ≡ f.write_buf) × ((close from_io f).0.io.sent ≡ f.io.sent)
  unfolding close
  close-keeps f = ground arith
