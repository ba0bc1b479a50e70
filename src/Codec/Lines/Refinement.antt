-- ===== src/Codec/Lines/Refinement.antt =====
-- `decode` of actix-codec/src/lines.rs against a plain description: cut the buffer at its first
-- newline and drop one carriage return. The code looks at the unread bytes only.
use actix_net.Prelude.{
  ℕ, zero, suc, ◌-◌, ◌≤◌, ◌<◌, ◌≡◌, refl, sym, Bool, [], ◌∷◌, Option, none, some, length, get_elem?,
  take, drop, last?, ◌==◌, if◌then◌else◌, ok, err, invalid_data, length-take, Option-cases, inl,
  inr, arith,
}
use actix_net.Codec.Utf8.{Bytes, is_utf8}
use actix_net.Codec.Newline.{
  position, IsMemchr, split_at, split_at-position, position-lt, position-drop,
}
use actix_net.Codec.Lines.{
  LinesCodec, Decoded, newline, carriage_return, is_cr, exceeds, try_into_utf8, finish_line,
  no_delimiter, delimiter, scan_start, find_newline, decode,
}

-- A line without one carriage return at its end.
unfoldable pub strip_cr : Bytes → Bytes
strip_cr [] = []
strip_cr (x ∷ []) = if x == carriage_return then [] else x ∷ []
strip_cr (x ∷ y ∷ ys) = x ∷ strip_cr (y ∷ ys)

abbrev pub cut_decode : LinesCodec → Bytes → Option (Bytes × Bytes) → Decoded
cut_decode c src none = no_delimiter c src
cut_decode c src (some (line, rest)) =
    if exceeds c.max_length (length line) (is_cr (last? line))
    then (c, src, err invalid_data)
    else (record c { next_index = 0 }, rest, try_into_utf8 (strip_cr line))

-- What `decode` is to do, with no memory of earlier calls.
unfoldable pub decode_spec : LinesCodec → Bytes → Decoded
decode_spec c src = cut_decode c src (split_at newline src)

-- The bytes that an earlier call has examined hold no newline.
abbrev pub IsScanned : LinesCodec → Bytes → Type 0
IsScanned c src = (c.next_index ≤ length src) × (position newline (take c.next_index src) ≡ none)

pub strip_cr-take :
    (xs : Bytes) {b : ℕ}
    → last? xs ≡ some b
    → strip_cr xs ≡ (if b == carriage_return then take (length xs - 1) xs else xs)
unfolding strip_cr
strip_cr-take [] h = ground arith
strip_cr-take (x ∷ []) h = ground arith
strip_cr-take (x ∷ y ∷ ys) {b} h = ground (arith, strip_cr-take (y ∷ ys) {b = b})

finish_line-strip_cr : (xs : Bytes) → finish_line (length xs) xs ≡ try_into_utf8 (strip_cr xs)
unfolding finish_line
finish_line-strip_cr [] = unfold strip_cr try_into_utf8 is_utf8 in refl
finish_line-strip_cr (x ∷ xs) = elim (Option-cases (last? (x ∷ xs))) [
  | inl e ↦ absurd (last?-ne-none x xs e)
  | inr (b, e) ↦ ground (arith, strip_cr-take (x ∷ xs) {b = b} e)
]
  where
    last?-ne-none : (x : ℕ) (xs : Bytes) → last? (x ∷ xs) ≡ none → ⊥
    last?-ne-none x [] e = ground arith
    last?-ne-none x (y ∷ ys) e = last?-ne-none y ys e

get_elem?-last? : (n : ℕ) (xs : Bytes) → n < length xs → get_elem? xs n ≡ last? (take (suc n) xs)
get_elem?-last? zero (x ∷ xs) h = refl
get_elem?-last? (suc n) (x ∷ y ∷ xs) h = get_elem?-last? n (y ∷ xs) (omega arith)
get_elem?-last? n xs h = absurd (omega arith)

exceeds-zero : (max : ℕ) (a b : Bool) → exceeds max 0 a ≡ exceeds max 0 b
unfolding exceeds
exceeds-zero max a b = ground arith

-- The carriage return that the code looks for in the buffer is the last byte of the line.
exceeds-line :
    (max n : ℕ) (xs : Bytes)
    → n < length xs
    → exceeds max n (is_cr (get_elem? xs (n - 1))) ≡ exceeds max n (is_cr (last? (take n xs)))
exceeds-line max zero xs h = exceeds-zero max _ _
exceeds-line max (suc n) xs h =
    let e : suc n - 1 ≡ n = omega arith in rw (e, get_elem?-last? n xs (omega arith)) refl

delimiter-cut :
    (c : LinesCodec) (xs : Bytes) (n : ℕ)
    → n < length xs
    → delimiter c xs n ≡ cut_decode c xs (some (take n xs, drop 1 (drop n xs)))
unfolding delimiter
delimiter-cut c xs n h =
    let e : length (take n xs) ≡ n = omega (arith, length-take n xs) in
    let f : finish_line n (take n xs) ≡ try_into_utf8 (strip_cr (take n xs)) =
      rw e at (finish_line-strip_cr (take n xs)) in
    rw (exceeds-line c.max_length n xs h, e, f) refl

empty-decode_spec : (c : LinesCodec) → decode_spec c [] ≡ (record c { next_index = 0 }, [], ok none)
unfolding decode_spec split_at no_delimiter exceeds
empty-decode_spec c = ground arith

-- A found index and the cut at it.
found-cut :
    (c : LinesCodec) (src : Bytes)
    → let at : Option ℕ → Decoded = elim [
      | none ↦ no_delimiter c src
      | some len ↦ delimiter c src len
    ] in
      at (position newline src) ≡ decode_spec c src
unfolding decode_spec
found-cut c src = elim (Option-cases (position newline src)) [
  | inl e ↦ rw (e, split_at-position newline src, e)
  | inr (n, e) ↦
      rw (e, split_at-position newline src, e)
        (delimiter-cut c src n (position-lt newline src {n = n} e))
]

module _ (memchr : ℕ → Bytes → Option ℕ) (memchr-first : IsMemchr memchr) where
  -- The search starts behind the examined bytes, and finds the first newline of the whole buffer.
  pub find_newline-position :
      (c : LinesCodec) (src : Bytes)
      → IsScanned c src
      → find_newline memchr (scan_start c src) src ≡ position newline src
  unfolding find_newline scan_start
  find_newline-position c src h = ground (
    arith,
    memchr-first newline (drop c.next_index src),
    memchr-first newline src,
    position-drop newline c.next_index src,
    position-drop newline 0 src,
  )

  -- With a scanned buffer, `decode` does what the plain description says, errors included.
  pub decode-decode_spec :
      (c : LinesCodec) (src : Bytes) → IsScanned c src → decode memchr c src ≡ decode_spec c src
  unfolding decode
  decode-decode_spec c [] h = sym (empty-decode_spec c)
  decode-decode_spec c (b ∷ bs) h = rw (find_newline-position c (b ∷ bs) h) (found-cut c (b ∷ bs))
