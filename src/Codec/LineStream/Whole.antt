-- ===== src/Codec/LineStream/Whole.antt =====
-- A whole stream of lines through `Framed` and `LinesCodec` (actix-codec/src), read and written.
use mathlib.Core.Option
use actix_net.Prelude.{
  ℕ, zero, suc, ◌+◌, ◌<◌, ◌≡◌, refl, sym, ap, ◌∙◌, false, List, [], ◌∷◌, Option, none, some, length,
  pending, ready, arith,
}
use actix_net.Codec.Utf8.{Bytes}
use actix_net.Codec.Newline.{IsMemchr}
use actix_net.Codec.Lines.{LinesCodec, newline, carriage_return, encode}
use actix_net.Codec.Lines
use actix_net.Codec.Lines.Chunks.{fresh-IsScanned}
use actix_net.Codec.Framed.{Framed, Transport, ReadEvent, Encoder}
use actix_net.Codec.Framed
use actix_net.Codec.Framed.Read.{next_item}
use actix_net.Codec.LineStream.{
  LineResult, lines, stream_of, IsScript, LineFramed, IsReading, unread, measure, lines_decoder,
}
use actix_net.Codec.LineStream.Tries.{LinePolled}
use actix_net.Codec.LineStream.Polls.{IsPolled, next_item-IsPolled}

-- A task that polls the stream until it ends, and keeps what it is given.
abbrev collect :
    (LineFramed → Option (List LineResult)) → LineFramed × LinePolled → Option (List LineResult)
collect more (g, pending) = more g
collect more (g, ready none) = some []
collect more (g, ready (some r)) = Option.map (λ ls. r ∷ ls) (more g)

module _ (memchr : ℕ → Bytes → Option ℕ) where
  unfoldable pub poll_all : ℕ → LineFramed → Option (List LineResult)
  poll_all zero f = none
  poll_all (suc n) f = collect (poll_all n) (next_item (lines_decoder memchr) (λ e. e) f)

module _ (memchr : ℕ → Bytes → Option ℕ) (memchr-first : IsMemchr memchr) where
  collect-IsPolled :
      (n k : ℕ) (ls : List LineResult) (r : LineFramed × LinePolled)
      → ((g : LineFramed)
          → IsReading g g.io.reads
          → measure g g.io.reads < n
          → poll_all memchr n g ≡ some (lines (unread g g.io.reads)))
      → IsPolled ls k r
      → k < suc n
      → collect (poll_all memchr n) r ≡ some ls
  collect-IsPolled n k ls (g, pending) ih p h =
      ih g p.0 (omega arith) ∙ ap (λ (l : List LineResult). some l) (sym p.1)
  collect-IsPolled n k ls (g, ready none) ih p h = rw p refl
  collect-IsPolled n k ls (g, ready (some r)) ih p h =
      rw (ih g p.0 (omega arith)) (ap (λ (l : List LineResult). some l) (sym p.1))

  poll_all-lines :
      (n : ℕ) (f : LineFramed)
      → IsReading f f.io.reads
      → measure f f.io.reads < n
      → poll_all memchr n f ≡ some (lines (unread f f.io.reads))
  unfolding poll_all
  poll_all-lines zero f v h = elim h [ ]
  poll_all-lines (suc n) f v h =
      collect-IsPolled n (measure f f.io.reads) _ _ (poll_all-lines n)
        (next_item-IsPolled memchr memchr-first f v) h

  -- However a transport cuts a stream into reads, and wherever it pauses, polling to the end
  -- returns exactly the lines of the stream, within one poll more than its bytes and answers.
  pub poll_all-stream :
      (es : List (ReadEvent (Unit {0}))) (n : ℕ)
      → IsScript false es
      → length (stream_of es) + length es < n
      → poll_all memchr n (Framed.new (record { reads = es; writes = []; sent = [] }) Lines.new)
        ≡ some (lines (stream_of es))
  unfolding Framed.new Lines.new
  poll_all-stream es n script h =
      poll_all-lines n _
        (record {
          unlimited = refl;
          scanned = fresh-IsScanned Lines.usize_max [];
          script = script;
          live = λ e. cc;
        })
        h
