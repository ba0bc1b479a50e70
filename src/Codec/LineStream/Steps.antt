-- ===== src/Codec/LineStream/Steps.antt =====
-- One call of the codec, seen on the whole stream (actix-codec/src/lines.rs).
use actix_net.Prelude.{
  is_empty, ℕ, ◌-◌, ◌<◌, ◌≡◌, refl, ap, ◌∙◌, Bool, true, false, [], ◌∷◌, ◌++◌, Option, none, some,
  length, take, drop, last?, ◌==◌, if◌then◌else◌, ok, Bool-cases, Option-cases, inl, inr, arith,
  append_assoc, append-nil, length-take, length-drop, ◌⊎◌,
}
use actix_net.Codec.Utf8.{Bytes, is_utf8}
use actix_net.Codec.Newline.{IsMemchr, split_at}
use actix_net.Codec.Lines.{
  LinesCodec, usize_max, newline, carriage_return, is_cr, exceeds, try_into_utf8, no_delimiter,
  last_line, at_eof, decode, decode_eof,
}
use actix_net.Codec.Lines.Refinement.{
  strip_cr, cut_decode, decode_spec, IsScanned, decode-decode_spec,
}
use actix_net.Codec.LineStream.{line_result, last_of, lines_of, lines}

lines_of-split :
    (cur xs : Bytes) {p : Bytes × Bytes}
    → split_at newline xs ≡ some p
    → lines_of cur xs ≡ line_result (strip_cr (cur ++ p.0)) ∷ lines p.1
unfolding lines_of split_at lines
lines_of-split cur [] e = cc
lines_of-split cur (x ∷ xs) {p} e = elim (Bool-cases (x == newline)) [
  | inl h ↦ ground (arith, append-nil cur)
  | inr h ↦ elim (Option-cases (split_at newline xs)) [
    | inl n ↦ ground arith
    | inr (q, s) ↦
        ground (arith, lines_of-split (cur ++ x ∷ []) xs {p = q} s, append_assoc cur (x ∷ []) q.0)
  ]
]

pub lines-split :
    (xs : Bytes) {p : Bytes × Bytes}
    → split_at newline xs ≡ some p
    → lines xs ≡ line_result (strip_cr p.0) ∷ lines p.1
unfolding lines
lines-split xs {p} e = lines_of-split [] xs {p = p} e

lines_of-rest :
    (cur xs : Bytes) → split_at newline xs ≡ none → lines_of cur xs ≡ last_of (cur ++ xs)
unfolding lines_of split_at
lines_of-rest cur [] e = rw (append-nil cur) refl
lines_of-rest cur (x ∷ xs) e = elim (Bool-cases (x == newline)) [
  | inl h ↦ ground (arith)
  | inr h ↦ elim (Option-cases (split_at newline xs)) [
    | inl n ↦ ground (arith, lines_of-rest (cur ++ x ∷ []) xs, append_assoc cur (x ∷ []) xs)
    | inr (q, s) ↦ ground arith
  ]
]

pub lines-rest : (xs : Bytes) → split_at newline xs ≡ none → lines xs ≡ last_of xs
unfolding lines
lines-rest xs e = lines_of-rest [] xs e

pub lines-rest_none :
    (xs : Bytes) → split_at newline xs ≡ none → is_empty (strip_cr xs) ≡ true → lines xs ≡ []
unfolding last_of
lines-rest_none xs e h = lines-rest xs e ∙ rw h refl

pub lines-rest_some :
    (xs : Bytes)
    → split_at newline xs ≡ none
    → is_empty (strip_cr xs) ≡ false
    → lines xs ≡ line_result (strip_cr xs) ∷ []
unfolding last_of
lines-rest_some xs e h = lines-rest xs e ∙ rw h refl

exceeds-unlimited : (len : ℕ) (cr : Bool) → exceeds usize_max len cr ≡ false
unfolding exceeds
exceeds-unlimited len cr = refl

limit :
    (c : LinesCodec)
    → c.max_length ≡ usize_max
    → (len : ℕ) (cr : Bool) → exceeds c.max_length len cr ≡ false
limit c u len cr = rw u (exceeds-unlimited len cr)

-- How much of the last line `last_line` takes.
abbrev pub kept : Bytes → ℕ
kept src = if is_cr (last? src) then length src - 1 else length src

take-kept : (src : Bytes) → take (kept src) src ≡ strip_cr src
unfolding strip_cr
take-kept [] = refl
take-kept (x ∷ []) = ground arith
take-kept (x ∷ y ∷ ys) = ground (arith, take-kept (y ∷ ys))

drop-kept :
    (src : Bytes) → (drop (kept src) src ≡ []) ⊎ (drop (kept src) src ≡ carriage_return ∷ [])
drop-kept [] = inl refl
drop-kept (x ∷ []) = ground arith
drop-kept (x ∷ y ∷ ys) = ground (arith, drop-kept (y ∷ ys))

-- What `last_line` leaves in the buffer is no line.
pub lines-drop-kept : (src : Bytes) → lines (drop (kept src) src) ≡ []
unfolding lines lines_of last_of strip_cr
lines-drop-kept src = elim (drop-kept src) [ inl e ↦ rw e refl | inr e ↦ rw e refl ]

pub drop-kept-lt :
    (src : Bytes) → is_empty (strip_cr src) ≡ false → length (drop (kept src) src) < length src
drop-kept-lt src h = omega (
  arith,
  length-drop (kept src) src,
  length-take (kept src) src,
  ap length (take-kept src),
  length_pos (strip_cr src) h,
)
  where
    length_pos : (bs : Bytes) → is_empty bs ≡ false → 0 < length bs
    length_pos [] e = ground arith
    length_pos (b ∷ bs) e = omega arith

strip_cr-nil : is_empty (strip_cr []) ≡ true
unfolding strip_cr
strip_cr-nil = refl

last_line_strip :
    (c : LinesCodec) (src : Bytes)
    → last_line c src ≡ (
      record c { next_index = 0 },
      drop (kept src) src,
      if is_empty (strip_cr src) then ok none else try_into_utf8 (strip_cr src),
    )
unfolding last_line
last_line_strip c src = rw (take-kept src) refl

module _ (memchr : ℕ → Bytes → Option ℕ) (memchr-first : IsMemchr memchr) where
  pub decode_split :
      (c : LinesCodec) (src : Bytes) (p : Bytes × Bytes)
      → c.max_length ≡ usize_max
      → IsScanned c src
      → split_at newline src ≡ some p
      → decode memchr c src ≡ (record c { next_index = 0 }, p.1, try_into_utf8 (strip_cr p.0))
  unfolding decode_spec
  decode_split c src p u s e =
      decode-decode_spec memchr memchr-first c src s
      ∙ ap (cut_decode c src) e
      ∙ rw (limit c u (length p.0) (is_cr (last? p.0))) refl

  pub decode_rest :
      (c : LinesCodec) (src : Bytes)
      → c.max_length ≡ usize_max
      → IsScanned c src
      → split_at newline src ≡ none
      → decode memchr c src ≡ (record c { next_index = length src }, src, ok none)
  unfolding decode_spec no_delimiter
  decode_rest c src u s e =
      decode-decode_spec memchr memchr-first c src s
      ∙ ap (cut_decode c src) e
      ∙ rw (limit c u (length src) (is_cr (last? src)), no_delimiter) refl

  -- Before the end of the buffer is reached, `decode_eof` is `decode`.
  pub decode_eof_split :
      (c : LinesCodec) (src : Bytes) (p : Bytes × Bytes)
      → c.max_length ≡ usize_max
      → IsScanned c src
      → split_at newline src ≡ some p
      → decode_eof memchr c src ≡ (record c { next_index = 0 }, p.1, try_into_utf8 (strip_cr p.0))
  unfolding decode_eof at_eof try_into_utf8
  decode_eof_split c src p u s e =
      rw (decode_split c src p u s e)
        (elim (Bool-cases (is_utf8 (strip_cr p.0))) [ inl h ↦ rw h refl | inr h ↦ rw h refl ])

  pub decode_eof_rest :
      (c : LinesCodec) (src : Bytes)
      → c.max_length ≡ usize_max
      → IsScanned c src
      → split_at newline src ≡ none
      → decode_eof memchr c src ≡ at_eof (record c { next_index = length src }) src (ok none)
  unfolding decode_eof
  decode_eof_rest c src u s e = rw (decode_rest c src u s e) refl

  -- At the end of the buffer `decode_eof` returns what is left of the last line, if that is
  -- anything, and leaves at most its carriage return.
  pub decode_eof_last :
      (c : LinesCodec) (src : Bytes)
      → c.max_length ≡ usize_max
      → IsScanned c src
      → split_at newline src ≡ none
      → is_empty (strip_cr src) ≡ false
      → decode_eof memchr c src
        ≡ (record c { next_index = 0 }, drop (kept src) src, try_into_utf8 (strip_cr src))
  unfolding at_eof
  decode_eof_last c [] u s e h = ground (arith, strip_cr-nil)
  decode_eof_last c (b ∷ bs) u s e h =
      decode_eof_rest c (b ∷ bs) u s e ∙ last_line_strip _ (b ∷ bs) ∙ rw h refl

  pub decode_eof_none :
      (c : LinesCodec) (src : Bytes)
      → c.max_length ≡ usize_max
      → IsScanned c src
      → split_at newline src ≡ none
      → is_empty (strip_cr src) ≡ true
      → (decode_eof memchr c src).2 ≡ ok none
  unfolding at_eof
  decode_eof_none c [] u s e h = ap (λ r. r.2) (decode_eof_rest c [] u s e)
  decode_eof_none c (b ∷ bs) u s e h =
      ap (λ r. r.2) (decode_eof_rest c (b ∷ bs) u s e ∙ last_line_strip _ (b ∷ bs)) ∙ rw h refl
