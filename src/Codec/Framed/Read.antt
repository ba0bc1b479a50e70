-- ===== src/Codec/Framed/Read.antt =====
-- The reading half of `Framed` (actix-codec/src/framed.rs): `next_item`, which is `poll_next`.
use actix_net.Prelude.{
  is_empty, Bool, true, false, ◌||◌, List, [], ◌∷◌, ◌++◌, Option, none, some, if◌then◌else◌, Result,
  ok, err, Poll, pending, ready, IoError,
}
use actix_net.Codec.Utf8.{Bytes}
use actix_net.Codec.Framed.{Framed, Transport, Decoder, ReadEvent, not_ready, failed, filled}

module _ {U O : Type 0} where
  -- The bytes of a read, which end the stream if there are none.
  unfoldable pub fill : Framed (Transport O) U → Bytes → Framed (Transport O) U
  fill f bs = record f { read_buf = f.read_buf ++ bs; eof = f.eof || is_empty bs; readable = true }

  -- The answers that the transport has left.
  abbrev pub with_reads : Framed (Transport O) U → List (ReadEvent O) → Framed (Transport O) U
  with_reads f es = record f { io = record (f.io) { reads = es } }

abbrev pub Polled : Type 0 → Type 0 → Type 0
Polled Item Err = Poll (Option (Result Err Item))

module _ {Item Err : Type 0} where
  -- What the `match` on `decode_eof` returns.
  abbrev pub eof_answer : Result Err (Option Item) → Polled Item Err
  eof_answer (ok (some frame)) = ready (some (ok frame))
  eof_answer (ok none) = ready none
  eof_answer (err e) = ready (some (err e))

  -- What the `match` on `decode` returns; `none` goes on to read.
  abbrev pub answer : Result Err (Option Item) → Option (Polled Item Err)
  answer (ok (some frame)) = some (ready (some (ok frame)))
  answer (ok none) = none
  answer (err e) = some (ready (some (err e)))

  abbrev pub wants_more : Result Err (Option Item) → Bool
  wants_more (ok none) = true
  wants_more (ok (some frame)) = false
  wants_more (err e) = false

  -- What the attempt to decode returns ends the call; otherwise the transport is read.
  abbrev pub settle :
      {U O : Type 0}
      → List (ReadEvent O)
      → (Framed (Transport O) U → Framed (Transport O) U × Polled Item Err)
      → Framed (Transport O) U × Option (Polled Item Err)
      → Framed (Transport O) U × Polled Item Err
  settle es next (f, none) = next f
  settle es next (f, some p) = (with_reads f es, p)

module _ {U Item Err O : Type 0} (d : Decoder U Item Err) (from_io : IoError O → Err) where
  -- The first half of the loop's body, under `READABLE`.
  unfoldable pub try_decode :
      Framed (Transport O) U → Framed (Transport O) U × Option (Polled Item Err)
  try_decode f =
      if f.readable
      then (if f.eof
          then (let (c, buf, r) = d.decode_eof f.codec f.read_buf in
              (record f { codec = c; read_buf = buf }, some (eof_answer r)))
          else (let (c, buf, r) = d.decode f.codec f.read_buf in
              (
                record f {
                  codec = c;
                  read_buf = buf;
                  readable = if wants_more r then false else f.readable;
                },
                answer r,
              )))
      else (f, none)

  -- The loop, by recursion on the answers of the transport.
  unfoldable pub next_loop :
      Framed (Transport O) U → List (ReadEvent O) → Framed (Transport O) U × Polled Item Err
  next_loop f [] = settle [] (λ g. (with_reads g [], pending)) (try_decode f)
  next_loop f (not_ready ∷ es) =
      settle (not_ready ∷ es) (λ g. (with_reads g es, pending)) (try_decode f)
  next_loop f (failed e ∷ es) =
      settle (failed e ∷ es) (λ g. (with_reads g es, ready (some (err (from_io e))))) (try_decode f)
  next_loop f (filled bs ∷ es) =
      settle (filled bs ∷ es) (λ g. next_loop (fill g bs) es) (try_decode f)

  unfoldable pub next_item : Framed (Transport O) U → Framed (Transport O) U × Polled Item Err
  unfolding next_loop try_decode fill
  next_item f = next_loop f f.io.reads
