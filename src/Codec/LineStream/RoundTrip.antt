-- ===== src/Codec/LineStream/RoundTrip.antt =====
-- Lines written through one `Framed` and read through another (actix-codec/src).
use actix_net.Prelude.{
  ℕ, ◌+◌, ◌<◌, ◌≡◌, ◌≢◌, refl, sym, ap, ◌∙◌, true, false, List, [], ◌∷◌, ◌++◌, map, Option, none,
  some, length, last?, ok, IoError, arith, append_assoc, append-nil, All, Option-cases, inl, inr,
}
use actix_net.Codec.Utf8.{Bytes, is_utf8}
use actix_net.Codec.Newline.{position, IsMemchr, split_at, split_at-append_none}
use actix_net.Codec.Lines.{LinesCodec, newline, carriage_return, encode}
use actix_net.Codec.Lines
use actix_net.Codec.Lines.Refinement.{strip_cr, strip_cr-take}
use actix_net.Codec.Framed.{Framed, Transport, ReadEvent, Encoder}
use actix_net.Codec.Framed
use actix_net.Codec.Framed.Write.{write}
use actix_net.Codec.Framed.Delivery.{outgoing}
use actix_net.Codec.LineStream.{
  LineResult, line_result, lines, lines_of, last_of, stream_of, IsScript, LineFramed,
}
use actix_net.Codec.LineStream.Steps.{lines-split}
use actix_net.Codec.LineStream.Whole.{poll_all, poll_all-stream}

unfoldable pub lines_encoder : Encoder LinesCodec Bytes (IoError (Unit {0}))
lines_encoder = record { encode = λ c item dst. (c, encode item dst, ok tt) }

-- A task that writes one line after the other.
unfoldable pub write_all : LineFramed → List Bytes → LineFramed
write_all f [] = f
write_all f (item ∷ items) = write_all (write lines_encoder f item).0 items

-- A text that the codec gives back: no newline in it, and no carriage return at its end.
pub record IsLine (item : Bytes) : Type 0 where
  pub no_newline : position newline item ≡ none
  pub no_cr : last? item ≢ some carriage_return
  pub valid : is_utf8 item ≡ true

strip_cr-IsLine : (item : Bytes) → last? item ≢ some carriage_return → strip_cr item ≡ item
strip_cr-IsLine [] h = unfold strip_cr in refl
strip_cr-IsLine (x ∷ xs) h = elim (Option-cases (last? (x ∷ xs))) [
  | inl e ↦ absurd (some_last x xs e)
  | inr (b, e) ↦ ground (arith, strip_cr-take (x ∷ xs) {b = b} e)
]
  where
    some_last : (x : ℕ) (xs : Bytes) → last? (x ∷ xs) ≡ none → ⊥
    some_last x [] e = cc
    some_last x (y ∷ ys) e = some_last y ys e

-- What `encode` writes of several items.
abbrev pub text_of : List Bytes → Bytes
text_of [] = []
text_of (item ∷ items) = item ++ newline ∷ text_of items

lines-nil : lines [] ≡ []
unfolding lines lines_of last_of strip_cr
lines-nil = refl

lines-text_of :
    (items : List Bytes) → All IsLine items → lines (text_of items) ≡ map (λ item. ok item) items
unfolding line_result
lines-text_of [] h = lines-nil
lines-text_of (item ∷ items) h =
    lines-split (item ++ newline ∷ text_of items) {p = (item, text_of items)}
      (cut item h.0.no_newline)
    ∙ rw (strip_cr-IsLine item h.0.no_cr, h.0.valid, lines-text_of items h.1) refl
  where
    cut :
        (item : Bytes)
        → position newline item ≡ none
        → split_at newline (item ++ newline ∷ text_of items) ≡ some (item, text_of items)
    cut item e =
        split_at-append_none newline item (newline ∷ text_of items) e
        ∙ (unfold split_at in rw (append-nil item) refl)

write_all-outgoing :
    (items : List Bytes) (f : LineFramed)
    → outgoing (write_all f items) ≡ outgoing f ++ text_of items
unfolding write_all write lines_encoder encode
write_all-outgoing [] f = sym (append-nil (outgoing f))
write_all-outgoing (item ∷ items) f = write_all-outgoing items _ ∙ simp append_assoc

-- Lines that one side writes and flushes are the lines that the other side reads, in order and
-- whatever pieces the bytes arrive in.
pub write_all-poll_all :
    (memchr : ℕ → Bytes → Option ℕ) (memchr-first : IsMemchr memchr) (items : List Bytes)
    (es : List (ReadEvent (Unit {0}))) (n : ℕ)
    → All IsLine items
    → IsScript false es
    → stream_of es
      ≡ outgoing
          (write_all (Framed.new (record { reads = []; writes = []; sent = [] }) Lines.new) items)
    → length (stream_of es) + length es < n
    → poll_all memchr n (Framed.new (record { reads = es; writes = []; sent = [] }) Lines.new)
      ≡ some (map (λ item. ok item) items)
unfolding Framed.new
write_all-poll_all memchr memchr-first items es n valid script arrives h =
    poll_all-stream memchr memchr-first es n script h
    ∙ ap (λ bs. some (lines bs)) (arrives ∙ write_all-outgoing items _)
    ∙ ap (λ (ls : List LineResult). some ls) (lines-text_of items valid)
