-- ===== src/Codec/LineStream/Tries.antt =====
-- One attempt of `Framed` to decode a line from its buffer (actix-codec/src/framed.rs).
use actix_net.Prelude.{
  ℕ, ◌<◌, ◌≡◌, refl, sym, ap, ◌∙◌, true, false, List, [], ◌∷◌, ◌++◌, Option, none, some, length,
  drop, is_empty, if◌then◌else◌, Poll, pending, ready, Bool-cases, Option-cases, inl, inr, arith,
  append-nil, take-length,
}
use actix_net.Codec.Utf8.{Bytes, is_utf8}
use actix_net.Codec.Newline.{IsMemchr, split_at, split_at-append, position-none, split_at-lt}
use actix_net.Codec.Lines.{usize_max, newline, try_into_utf8, decode, decode_eof}
use actix_net.Codec.Lines.Refinement.{strip_cr, IsScanned}
use actix_net.Codec.Lines.Chunks.{fresh-IsScanned}
use actix_net.Codec.Framed.{ReadEvent}
use actix_net.Codec.Framed.Read.{answer, eof_answer, try_decode, wants_more}
use actix_net.Codec.LineStream.{
  LineResult, line_result, lines, LineFramed, IsReading, lines_decoder,
}
use actix_net.Codec.LineStream.Steps.{
  lines-split, lines-rest_none, lines-rest_some, kept, lines-drop-kept, drop-kept-lt, decode_split,
  decode_rest, decode_eof_split, decode_eof_last, decode_eof_none,
}

abbrev pub LinePolled : Type 0
LinePolled = Poll (Option LineResult)

-- What is kept by one attempt to decode.
pub record IsKept (f g : LineFramed) : Type 0 where
  pub unlimited : g.codec.max_length ≡ usize_max
  pub scanned : IsScanned g.codec g.read_buf
  pub same_eof : g.eof ≡ f.eof
  pub live : g.eof ≡ true → g.readable ≡ true
  pub same_reads : g.io.reads ≡ f.io.reads

-- One attempt to decode, `rest` being the bytes that are still to be read.
abbrev pub IsTried : LineFramed → Bytes → LineFramed × Option LinePolled → Type 0
IsTried f rest (g, none) = IsKept f g × (g.eof ≡ false) × (g.read_buf ≡ f.read_buf)
IsTried f rest (g, some pending) = ⊥
IsTried f rest (g, some (ready none)) = lines (f.read_buf ++ rest) ≡ []
IsTried f rest (g, some (ready (some r))) =
    IsKept f g
    × (lines (f.read_buf ++ rest) ≡ r ∷ lines (g.read_buf ++ rest))
    × (length g.read_buf < length f.read_buf)

module _ (f g : LineFramed) (rest line : Bytes) (k : IsKept f g) where
  -- A line that is returned as text or as an error.
  answer-IsTried :
      lines (f.read_buf ++ rest) ≡ line_result line ∷ lines (g.read_buf ++ rest)
      → length g.read_buf < length f.read_buf
      → IsTried f rest (g, answer (try_into_utf8 line))
  unfolding line_result try_into_utf8
  answer-IsTried e h = elim (Bool-cases (is_utf8 line)) [
    | inl u ↦ rw u (k, rw u at e, h)
    | inr u ↦ rw u (k, rw u at e, h)
  ]

  eof_answer-IsTried :
      lines (f.read_buf ++ rest) ≡ line_result line ∷ lines (g.read_buf ++ rest)
      → length g.read_buf < length f.read_buf
      → IsTried f rest (g, some (eof_answer (try_into_utf8 line)))
  unfolding line_result try_into_utf8
  eof_answer-IsTried e h = elim (Bool-cases (is_utf8 line)) [
    | inl u ↦ rw u (k, rw u at e, h)
    | inr u ↦ rw u (k, rw u at e, h)
  ]

-- The first line of the buffer is the first line of the stream.
lines-found :
    (src rest : Bytes) (p : Bytes × Bytes)
    → split_at newline src ≡ some p
    → lines (src ++ rest) ≡ line_result (strip_cr p.0) ∷ lines (p.1 ++ rest)
lines-found src rest p e =
    lines-split (src ++ rest) {p = (p.0, p.1 ++ rest)} (split_at-append newline src rest {p = p} e)

-- The decoder starts afresh with what follows a line.
after_line-IsKept :
    (f : LineFramed) (es : List (ReadEvent (Unit {0}))) (buf : Bytes)
    → IsReading f es
    → IsKept f (record f { codec = record (f.codec) { next_index = 0 }; read_buf = buf })
after_line-IsKept f es buf v = record {
  unlimited = v.unlimited;
  scanned = fresh-IsScanned f.codec.max_length buf;
  same_eof = refl;
  live = v.live;
  same_reads = refl;
}

-- The three ways through the first half of the loop's body.
module _ (memchr : ℕ → Bytes → Option ℕ) (f : LineFramed) where
  try_decode_idle : f.readable ≡ false → try_decode (lines_decoder memchr) (λ e. e) f ≡ (f, none)
  unfolding try_decode
  try_decode_idle idle = rw idle refl

  try_decode_eof :
      f.readable ≡ true
      → f.eof ≡ true
      → try_decode (lines_decoder memchr) (λ e. e) f ≡ (
          let (c, buf, r) = decode_eof memchr f.codec f.read_buf in
          (record f { codec = c; read_buf = buf }, some (eof_answer r)))
  unfolding try_decode lines_decoder
  try_decode_eof busy eof = rw (busy, eof) refl

  try_decode_more :
      f.readable ≡ true
      → f.eof ≡ false
      → try_decode (lines_decoder memchr) (λ e. e) f ≡ (
          let (c, buf, r) = decode memchr f.codec f.read_buf in
          (
            record f {
              codec = c;
              read_buf = buf;
              readable = if wants_more r then false else f.readable;
            },
            answer r,
          ))
  unfolding try_decode lines_decoder
  try_decode_more busy more = rw (busy, more) refl

module _ (memchr : ℕ → Bytes → Option ℕ) (memchr-first : IsMemchr memchr) where
  at_eof-IsTried :
      (f : LineFramed) (es : List (ReadEvent (Unit {0}))) (rest : Bytes)
      → IsReading f es
      → rest ≡ []
      → (let (c, buf, r) = decode_eof memchr f.codec f.read_buf in
          IsTried f rest (record f { codec = c; read_buf = buf }, some (eof_answer r)))
  at_eof-IsTried f es rest v none_left = elim (Option-cases (split_at newline f.read_buf)) [
    | inr (p, s) ↦
        rw (decode_eof_split memchr memchr-first f.codec f.read_buf p v.unlimited v.scanned s) (
          eof_answer-IsTried f _ rest (strip_cr p.0) (after_line-IsKept f es p.1 v)
            (lines-found f.read_buf rest p s) (split_at-lt newline f.read_buf {p = p} s))
    | inl s ↦ elim (Bool-cases (is_empty (strip_cr f.read_buf))) [
      | inl e ↦
          rw (decode_eof_none memchr memchr-first f.codec f.read_buf v.unlimited v.scanned s e)
            (rw (none_left, append-nil) (lines-rest_none f.read_buf s e))
      | inr e ↦
          rw (decode_eof_last memchr memchr-first f.codec f.read_buf v.unlimited v.scanned s e) (
            eof_answer-IsTried f _ rest (strip_cr f.read_buf)
              (after_line-IsKept f es (drop (kept f.read_buf) f.read_buf) v)
              (rw (none_left, append-nil, append-nil)
                (lines-rest_some f.read_buf s e
                  ∙ ap (λ (ls : List LineResult). line_result (strip_cr f.read_buf) ∷ ls)
                      (sym (lines-drop-kept f.read_buf))))
              (drop-kept-lt f.read_buf e))
    ]
  ]

  with_more-IsTried :
      (f : LineFramed) (es : List (ReadEvent (Unit {0}))) (rest : Bytes)
      → IsReading f es
      → f.eof ≡ false
      → (let (c, buf, r) = decode memchr f.codec f.read_buf in
          IsTried f rest (
            record f {
              codec = c;
              read_buf = buf;
              readable = if wants_more r then false else f.readable;
            },
            answer r,
          ))
  with_more-IsTried f es rest v more = elim (Option-cases (split_at newline f.read_buf)) [
    | inr (p, s) ↦
        rw (decode_split memchr memchr-first f.codec f.read_buf p v.unlimited v.scanned s) (
          answer-IsTried f _ rest (strip_cr p.0)
            (record {
              unlimited = v.unlimited;
              scanned = fresh-IsScanned f.codec.max_length p.1;
              same_eof = refl;
              live = λ e. cc;
              same_reads = refl;
            })
            (lines-found f.read_buf rest p s) (split_at-lt newline f.read_buf {p = p} s))
    | inl s ↦ rw (decode_rest memchr memchr-first f.codec f.read_buf v.unlimited v.scanned s) (
      record {
        unlimited = v.unlimited;
        scanned = (omega arith, rw (take-length f.read_buf) (position-none newline f.read_buf s));
        same_eof = refl;
        live = λ e. cc;
        same_reads = refl;
      },
      more,
      refl,
    )
  ]

  pub try_decode-IsTried :
      (f : LineFramed) (es : List (ReadEvent (Unit {0}))) (rest : Bytes)
      → IsReading f es
      → (f.eof ≡ true → rest ≡ [])
      → IsTried f rest (try_decode (lines_decoder memchr) (λ e. e) f)
  try_decode-IsTried f es rest v h = elim (Bool-cases f.readable) [
    | inr idle ↦ rw (try_decode_idle memchr f idle) (
      record {
        unlimited = v.unlimited;
        scanned = v.scanned;
        same_eof = refl;
        live = v.live;
        same_reads = refl;
      },
      ground (arith, v.live),
      refl,
    )
    | inl busy ↦ elim (Bool-cases f.eof) [
      | inl eof ↦ rw (try_decode_eof memchr f busy eof) (at_eof-IsTried f es rest v (h eof))
      | inr more ↦ rw (try_decode_more memchr f busy more) (with_more-IsTried f es rest v more)
    ]
  ]
