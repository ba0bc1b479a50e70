-- ===== src/Codec/Framed/Write.antt =====
-- The writing half of `Framed` (actix-codec/src/framed.rs): `write`, `flush`, `close` and the `Sink`.
use actix_net.Prelude.{
  is_empty, ℕ, List, [], ◌∷◌, ◌++◌, take, drop, ◌==◌, if◌then◌else◌, Result, ok, err, Poll, pending,
  ready, IoError, write_zero,
}
use actix_net.Codec.Framed.{
  Framed, Transport, Encoder, WriteEvent, not_writable, refused, written, is_write_ready,
}

module _ {U O : Type 0} where
  abbrev pub with_writes : Framed (Transport O) U → List (WriteEvent O) → Framed (Transport O) U
  with_writes f ws = record f { io = record (f.io) { writes = ws } }

  -- `poll_write` has taken the first `n` bytes, and `advance` removes them from the buffer.
  unfoldable pub take_written : Framed (Transport O) U → ℕ → Framed (Transport O) U
  take_written f n = record f {
    io = record (f.io) { sent = f.io.sent ++ take n f.write_buf };
    write_buf = drop n f.write_buf;
  }

-- `Framed::write`, which is also `start_send`.
unfoldable pub write :
    {T U Item Err : Type 0}
    → Encoder U Item Err
    → Framed T U
    → Item
    → Framed T U × Result Err (Unit {0})
write e f item =
    let (c, buf, r) = e.encode f.codec item f.write_buf in
    (record f { codec = c; write_buf = buf }, r)

abbrev pub Flushed : Type 0 → Type 0 → Type 0 → Type 0
Flushed U O Err = Framed (Transport O) U × Poll (Result Err (Unit {0}))

module _ {U Err O : Type 0} (from_io : IoError O → Err) where
  -- One call of `poll_flush` or `poll_shutdown`.
  abbrev pub poll_io : Framed (Transport O) U → List (WriteEvent O) → Flushed U O Err
  poll_io f [] = (with_writes f [], pending)
  poll_io f (not_writable ∷ ws) = (with_writes f ws, pending)
  poll_io f (refused x ∷ ws) = (with_writes f ws, ready (err (from_io x)))
  poll_io f (written n ∷ ws) = (with_writes f ws, ready (ok tt))

  -- The loop of `flush`, by recursion on the answers of the transport.
  unfoldable pub flush_loop : Framed (Transport O) U → List (WriteEvent O) → Flushed U O Err
  flush_loop f (written n ∷ ws) =
      let rest = flush_loop (take_written f n) ws in
      if is_empty f.write_buf
      then poll_io f (written n ∷ ws)
      else if n == 0
      then (with_writes f ws, ready (err (from_io write_zero)))
      else rest
  flush_loop f [] = (with_writes f [], pending)
  flush_loop f (not_writable ∷ ws) = (with_writes f ws, pending)
  flush_loop f (refused x ∷ ws) = (with_writes f ws, ready (err (from_io x)))

  -- `Framed::flush`, which is also `poll_flush`.
  unfoldable pub flush : Framed (Transport O) U → Flushed U O Err
  unfolding flush_loop take_written
  flush f = flush_loop f f.io.writes

  unfoldable pub poll_ready : Framed (Transport O) U → Flushed U O Err
  poll_ready f = if is_write_ready f then (f, ready (ok tt)) else flush f

  abbrev pub then_poll : Flushed U O Err → Flushed U O Err
  then_poll (f, ready (ok x)) = poll_io f f.io.writes
  then_poll (f, ready (err x)) = (f, ready (err x))
  then_poll (f, pending) = (f, pending)

  -- `Framed::close`, which is also `poll_close`: it flushes and shuts down the transport.
  unfoldable pub close : Framed (Transport O) U → Flushed U O Err
  close f = then_poll (poll_io f f.io.writes)
