-- ===== src/Codec/Lines/Bounds.antt =====
-- The maximum length of `LinesCodec` (actix-codec/src/lines.rs).
use actix_net.Prelude.{
  ℕ, ◌+◌, ◌-◌, ◌≤◌, ◌≡◌, ◌≢◌, refl, Bool, false, [], ◌∷◌, Option, none, some, length, last?,
  if◌then◌else◌, ok, err, Bool-cases, inl, inr, arith,
}
use actix_net.Codec.Utf8.{Bytes, is_utf8}
use actix_net.Codec.Newline.{IsMemchr, split_at}
use actix_net.Codec.Lines.{
  LinesCodec, Decoded, usize_max, newline, is_cr, exceeds, try_into_utf8, no_delimiter, decode,
}
use actix_net.Codec.Lines.Refinement.{
  strip_cr, cut_decode, decode_spec, IsScanned, decode-decode_spec,
}

-- A bound on what one call leaves: on a line, and on the bytes kept while a line is incomplete.
abbrev pub IsBounded : ℕ → Decoded → Type 0
IsBounded max (c, src, ok (some line)) = length line ≤ max
IsBounded max (c, src, ok none) = length src ≤ max + 1
IsBounded max (c, src, err e) = Unit {0}

length-strip_cr :
    (xs : Bytes) → length (strip_cr xs) ≡ length xs - (if is_cr (last? xs) then 1 else 0)
unfolding strip_cr
length-strip_cr [] = refl
length-strip_cr (x ∷ []) = ground arith
length-strip_cr (x ∷ y ∷ ys) = ground (arith, length-strip_cr (y ∷ ys))

utf8-IsBounded :
    (c : LinesCodec) (max : ℕ) (rest line : Bytes)
    → length line ≤ max
    → IsBounded max (c, rest, try_into_utf8 line)
unfolding try_into_utf8
utf8-IsBounded c max rest line h = elim (Bool-cases (is_utf8 line)) [
  | inl e ↦ rw e h
  | inr e ↦ rw e tt
]

not_exceeds :
    (max len : ℕ) (cr : Bool)
    → max ≢ usize_max
    → exceeds max len cr ≡ false
    → len - (if cr then 1 else 0) ≤ max
unfolding exceeds
not_exceeds max len cr h e = ground arith

cut_decode-IsBounded :
    (c : LinesCodec) (src : Bytes) (o : Option (Bytes × Bytes))
    → c.max_length ≢ usize_max
    → IsBounded c.max_length (cut_decode c src o)
unfolding no_delimiter
cut_decode-IsBounded c src none h =
    elim (Bool-cases (exceeds c.max_length (length src) (is_cr (last? src)))) [
      | inl e ↦ rw e tt
      | inr e ↦ rw e (ground (arith, not_exceeds c.max_length (length src) (is_cr (last? src)) h e))
    ]
cut_decode-IsBounded c src (some (line, rest)) h =
    elim (Bool-cases (exceeds c.max_length (length line) (is_cr (last? line)))) [
      | inl e ↦ rw e tt
      | inr e ↦ rw e (
          utf8-IsBounded c c.max_length rest (strip_cr line) (
            omega (
              arith,
              length-strip_cr line,
              not_exceeds c.max_length (length line) (is_cr (last? line)) h e,
            )))
    ]

-- With a maximum length set, a decoded line is no longer than the maximum, and after a call that
-- finds no complete line the buffer holds at most one byte more than the maximum.
pub decode-IsBounded :
    (memchr : ℕ → Bytes → Option ℕ) (memchr-first : IsMemchr memchr) (c : LinesCodec) (src : Bytes)
    → IsScanned c src
    → c.max_length ≢ usize_max
    → IsBounded c.max_length (decode memchr c src)
unfolding decode_spec
decode-IsBounded memchr memchr-first c src s h =
    rw (decode-decode_spec memchr memchr-first c src s)
      (cut_decode-IsBounded c src (split_at newline src) h)
