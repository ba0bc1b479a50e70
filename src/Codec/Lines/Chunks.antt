-- ===== src/Codec/Lines/Chunks.antt =====
-- `LinesCodec` (actix-codec/src/lines.rs) on a buffer that grows between the calls.
use mathlib.Core.Option
use actix_net.Prelude.{
  ℕ, suc, ◌+◌, ◌≡◌, refl, true, [], ◌∷◌, ◌++◌, Option, none, some, length, last?, ok, err,
  invalid_data, Bool-cases, inl, inr, arith, take-append_length, take-append_le, append-nil,
  length-append,
}
use actix_net.Codec.Utf8.{Bytes}
use actix_net.Codec.Newline.{
  position, IsMemchr, split_at, split_at-append, split_at-append_none, position-none,
}
use actix_net.Codec.Lines.{LinesCodec, Decoded, newline, is_cr, exceeds, no_delimiter, decode}
use actix_net.Codec.Lines.Refinement.{cut_decode, decode_spec, IsScanned, decode-decode_spec}

-- A call that ends with a line or with an error, and not for want of bytes.
abbrev pub IsSettled : Decoded → Type 0
IsSettled (c, src, ok none) = ⊥
IsSettled (c, src, ok (some line)) = Unit {0}
IsSettled (c, src, err e) = Unit {0}

-- The same outcome, with more bytes behind what is left in the buffer.
abbrev pub with_rest : Bytes → Decoded → Decoded
with_rest more (c, src, r) = (c, src ++ more, r)

-- The buffer and decoder after a call, when more bytes have been read.
abbrev pub IsScannedAfter : Bytes → Decoded → Type 0
IsScannedAfter more (c, src, r) = IsScanned c (src ++ more)

pub IsScanned-append :
    (c : LinesCodec) (src more : Bytes) → IsScanned c src → IsScanned c (src ++ more)
IsScanned-append c src more (h, e) =
    (omega (arith, length-append src more), rw (take-append_le c.next_index src more h) e)

pub fresh-IsScanned :
    (max : ℕ) (src : Bytes) → IsScanned (record { max_length = max; next_index = 0 }) src
unfolding position
fresh-IsScanned max src = (omega arith, refl)

cut_decode-IsScanned :
    (c : LinesCodec) (src more : Bytes)
    → IsScanned c src
    → (o : Option (Bytes × Bytes)) → split_at newline src ≡ o
    → IsScannedAfter more (cut_decode c src o)
unfolding no_delimiter
cut_decode-IsScanned c src more h none s =
    elim (Bool-cases (exceeds c.max_length (length src) (is_cr (last? src)))) [
      | inl e ↦ rw e (IsScanned-append c src more h)
      | inr e ↦ rw e (
        omega (arith, length-append src more),
        rw (take-append_length src more) (position-none newline src s),
      )
    ]
cut_decode-IsScanned c src more h (some (line, rest)) s =
    elim (Bool-cases (exceeds c.max_length (length line) (is_cr (last? line)))) [
      | inl e ↦ rw e (IsScanned-append c src more h)
      | inr e ↦ rw e (fresh-IsScanned c.max_length (rest ++ more))
    ]

exceeds-append :
    (max : ℕ) (xs ys : Bytes)
    → exceeds max (length xs) (is_cr (last? xs)) ≡ true
    → exceeds max (length (xs ++ ys)) (is_cr (last? (xs ++ ys))) ≡ true
exceeds-append max xs [] h = rw (append-nil xs) h
exceeds-append max xs (y ∷ ys) h = longer (length-append xs (y ∷ ys))
  where
    longer :
        length (xs ++ y ∷ ys) ≡ length xs + suc (length ys)
        → exceeds max (length (xs ++ y ∷ ys)) (is_cr (last? (xs ++ y ∷ ys))) ≡ true
    longer e = unfold exceeds in ground arith

-- A buffer that is too long stays so, whatever comes behind it.
too_long-append :
    (c : LinesCodec) (src more : Bytes)
    → exceeds c.max_length (length src) (is_cr (last? src)) ≡ true
    → (o : Option (Bytes × Bytes))
    → cut_decode c (src ++ more) (Option.map (λ p. (src ++ p.0, p.1)) o)
      ≡ (c, src ++ more, err invalid_data)
unfolding no_delimiter
too_long-append c src more e none = rw (exceeds-append c.max_length src more e) refl
too_long-append c src more e (some (l, r)) = rw (exceeds-append c.max_length src l e) refl

cut_decode-append :
    (c : LinesCodec) (src more : Bytes)
    → (o : Option (Bytes × Bytes)) → split_at newline src ≡ o
    → IsSettled (cut_decode c src o)
    → cut_decode c (src ++ more) (split_at newline (src ++ more))
      ≡ with_rest more (cut_decode c src o)
unfolding no_delimiter
cut_decode-append c src more none s h =
    elim (Bool-cases (exceeds c.max_length (length src) (is_cr (last? src)))) [
      | inl e ↦
          rw (split_at-append_none newline src more (position-none newline src s), e)
            (too_long-append c src more e (split_at newline more))
      | inr e ↦ absurd (rw e at h)
    ]
cut_decode-append c src more (some (line, rest)) s h =
    rw (split_at-append newline src more {p = (line, rest)} s)
      (elim (Bool-cases (exceeds c.max_length (length line) (is_cr (last? line)))) [
        | inl e ↦ rw e refl
        | inr e ↦ rw e refl
      ])

-- What `Framed` does between two calls, reading more bytes, keeps the decoder's memory right.
pub decode-IsScanned :
    (memchr : ℕ → Bytes → Option ℕ) (memchr-first : IsMemchr memchr) (c : LinesCodec)
    (src more : Bytes)
    → IsScanned c src
    → IsScannedAfter more (decode memchr c src)
unfolding decode_spec
decode-IsScanned memchr memchr-first c src more h =
    rw (decode-decode_spec memchr memchr-first c src h)
      (cut_decode-IsScanned c src more h (split_at newline src) refl)

-- A line or an error that was found does not depend on the bytes that are still to come.
pub decode-append :
    (memchr : ℕ → Bytes → Option ℕ) (memchr-first : IsMemchr memchr) (c : LinesCodec)
    (src more : Bytes)
    → IsScanned c src
    → IsSettled (decode memchr c src)
    → decode memchr c (src ++ more) ≡ with_rest more (decode memchr c src)
unfolding decode_spec
decode-append memchr memchr-first c src more h =
    rw
      (
        decode-decode_spec memchr memchr-first c src h,
        decode-decode_spec memchr memchr-first c (src ++ more) (IsScanned-append c src more h),
      )
      (cut_decode-append c src more (split_at newline src) refl)
