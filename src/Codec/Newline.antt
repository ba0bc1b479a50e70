-- ===== src/Codec/Newline.antt =====
-- The first newline of a buffer: what `memchr` is documented to find, and the line before it.
use mathlib.Core.Option
use actix_net.Prelude.{
  ℕ, zero, suc, ◌+◌, ◌-◌, ◌≤◌, ◌<◌, ◌≡◌, refl, [], ◌∷◌, ◌++◌, Option, none, some, length, take,
  drop, ◌==◌, if◌then◌else◌, Option-cases, inl, inr, arith,
}
use actix_net.Codec.Utf8.{Bytes}

-- The index of the first occurrence of a byte.
unfoldable pub position : ℕ → Bytes → Option ℕ
position b [] = none
position b (x ∷ xs) = if x == b then some 0 else Option.map (λ n. suc n) (position b xs)

-- The documentation of `memchr`: the first occurrence, if there is one.
abbrev pub IsMemchr : (ℕ → Bytes → Option ℕ) → Type 0
IsMemchr memchr = (b : ℕ) (xs : Bytes) → memchr b xs ≡ position b xs

-- The line before the first `b`, and what follows that `b`.
unfoldable pub split_at : ℕ → Bytes → Option (Bytes × Bytes)
split_at b [] = none
split_at b (x ∷ xs) =
    if x == b then some ([], xs) else Option.map (λ p. (x ∷ p.0, p.1)) (split_at b xs)

pub split_at-position :
    (b : ℕ) (xs : Bytes)
    → split_at b xs ≡ Option.map (λ n. (take n xs, drop 1 (drop n xs))) (position b xs)
unfolding split_at position
split_at-position b [] = refl
split_at-position b (x ∷ xs) = ground (arith, split_at-position b xs)

pub position-lt : (b : ℕ) (xs : Bytes) {n : ℕ} → position b xs ≡ some n → n < length xs
unfolding position
position-lt b [] h = ground arith
position-lt b (x ∷ xs) {n} h = ground (arith, position-lt b xs {n = n - 1})

-- A search may start behind bytes that hold no `b`.
pub position-drop :
    (b n : ℕ) (xs : Bytes)
    → n ≤ length xs
    → position b (take n xs) ≡ none
    → position b xs ≡ Option.map (λ k. n + k) (position b (drop n xs))
unfolding position
position-drop b zero [] h e = refl
position-drop b zero (x ∷ xs) h e = ground (arith)
position-drop b (suc n) [] h e = refl
position-drop b (suc n) (x ∷ xs) h e = ground (arith, position-drop b n xs)

pub position-append_none :
    (b : ℕ) (xs ys : Bytes)
    → position b xs ≡ none
    → position b (xs ++ ys) ≡ Option.map (λ k. length xs + k) (position b ys)
unfolding position
position-append_none b [] ys e = ground arith
position-append_none b (x ∷ xs) ys e = ground (arith, position-append_none b xs ys)

pub split_at-append_none :
    (b : ℕ) (xs ys : Bytes)
    → position b xs ≡ none
    → split_at b (xs ++ ys) ≡ Option.map (λ p. (xs ++ p.0, p.1)) (split_at b ys)
unfolding split_at position
split_at-append_none b [] ys e = ground arith
split_at-append_none b (x ∷ xs) ys e = ground (arith, split_at-append_none b xs ys)

-- Bytes that come behind a found line do not change it.
pub split_at-append :
    (b : ℕ) (xs ys : Bytes) {p : Bytes × Bytes}
    → split_at b xs ≡ some p
    → split_at b (xs ++ ys) ≡ some (p.0, p.1 ++ ys)
unfolding split_at
split_at-append b [] ys e = ground arith
split_at-append b (x ∷ xs) ys {p} e = elim (Option-cases (split_at b xs)) [
  | inl n ↦ ground arith
  | inr (q, s) ↦ ground (arith, split_at-append b xs ys {p = q} s)
]

pub position-none : (b : ℕ) (xs : Bytes) → split_at b xs ≡ none → position b xs ≡ none
unfolding split_at position
position-none b [] h = refl
position-none b (x ∷ xs) h = ground (arith, position-none b xs)

pub split_at-lt :
    (b : ℕ) (xs : Bytes) {p : Bytes × Bytes} → split_at b xs ≡ some p → length p.1 < length xs
unfolding split_at
split_at-lt b [] e = cc
split_at-lt b (x ∷ xs) {p} e = elim (Option-cases (split_at b xs)) [
  | inl n ↦ ground arith
  | inr (q, s) ↦ ground (arith, split_at-lt b xs {p = q} s)
]
