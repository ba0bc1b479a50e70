-- ===== src/Prelude/Digits.antt =====
-- The binary digits of the native bit operations.
use Prim.Native.Nat.{
  ℕ, zero, suc, ◌-◌, ◌/◌, ◌%◌, ◌^◌, ◌≤◌, ◌<◌, min, max, digits, bit_and, bit_or, bit_and-bitwise,
  bit_or-bitwise,
}
use mathlib.Core.Path.{◌≡◌, refl, ap, ◌∙◌}
use mathlib.Core.Logic.{◌⊎◌, inl, inr}
use native.Mathlib.Nat.{pow-suc, one-le-pow}
use native.Mathlib.Omega.{arith}
use actix_net.Prelude.Tests.{◌==◌, if◌then◌else◌}

-- The digit of weight `2 ^ k`.
unfoldable pub digit : ℕ → ℕ → ℕ
digit zero w = w % 2
digit (suc k) w = digit k (w / 2)

pub digit-le-one : (k w : ℕ) → digit k w ≤ 1
unfolding digit
digit-le-one zero w = omega arith
digit-le-one (suc k) w = digit-le-one k (w / 2)

pub digit-zero : (k : ℕ) → digit k 0 ≡ 0
unfolding digit
digit-zero zero = refl
digit-zero (suc k) = digit-zero k

module _ (z : ℕ → ℕ) (f : ℕ → ℕ → ℕ) (f-le-one : (x y : ℕ) → x ≤ 1 → y ≤ 1 → f x y ≤ 1) where
  -- What is computed digit by digit has the digits computed.
  digit-digits :
      ((k b : ℕ) → digit k (z b) ≡ f 0 (digit k b))
      → (n a b k : ℕ) → a ≤ n
      → digit k (digits z f n a b) ≡ f (digit k a) (digit k b)
  unfolding digit
  digit-digits rest zero zero b k h = rw (digit-zero k) (rest k b)
  digit-digits rest zero (suc a) b k h = absurd (omega arith)
  digit-digits rest (suc n) zero b k h = rw (digit-zero k) (rest k b)
  digit-digits rest (suc n) (suc a) b zero h =
      omega (arith, f-le-one (suc a % 2) (b % 2) (omega arith) (omega arith))
  digit-digits rest (suc n) (suc a) b (suc k) h =
      ap (digit k) (omega (arith, f-le-one (suc a % 2) (b % 2) (omega arith) (omega arith)))
      ∙ digit-digits rest n (suc a / 2) (b / 2) k (omega arith)

  digits-lt :
      ((w b : ℕ) → b < 2 ^ w → z b < 2 ^ w)
      → (n w a b : ℕ) → a < 2 ^ w
      → b < 2 ^ w
      → digits z f n a b < 2 ^ w
  digits-lt rest zero w a b p q = rest w b q
  digits-lt rest (suc n) w zero b p q = rest w b q
  digits-lt rest (suc n) zero (suc a) b p q = absurd (omega arith)
  digits-lt rest (suc n) (suc w) (suc a) b p q = omega (
    arith,
    pow-suc 2 w,
    f-le-one (suc a % 2) (b % 2) (omega arith) (omega arith),
    digits-lt rest n w (suc a / 2) (b / 2) (omega (arith, pow-suc 2 w))
        (omega (arith, pow-suc 2 w)),
  )

pub digit-bit_or : (k a b : ℕ) → digit k (bit_or a b) ≡ max (digit k a) (digit k b)
digit-bit_or k a b =
    ap (digit k) (bit_or-bitwise a b)
    ∙ digit-digits (λ y. y) max (λ x y p q. omega arith) (λ k b. omega arith) a a b k (omega arith)

pub digit-bit_and : (k a b : ℕ) → digit k (bit_and a b) ≡ min (digit k a) (digit k b)
digit-bit_and k a b =
    ap (digit k) (bit_and-bitwise a b)
    ∙ digit-digits (λ y. 0) min (λ x y p q. omega arith) (λ k b. omega (arith, digit-zero k)) a a b
        k (omega arith)

pub bit_or-lt : (w a b : ℕ) → a < 2 ^ w → b < 2 ^ w → bit_or a b < 2 ^ w
bit_or-lt w a b p q =
    rw (bit_or-bitwise a b)
      (digits-lt (λ y. y) max (λ x y p q. omega arith) (λ w b h. h) a w a b p q)

pub bit_and-lt : (w a b : ℕ) → a < 2 ^ w → b < 2 ^ w → bit_and a b < 2 ^ w
bit_and-lt w a b p q = rw (bit_and-bitwise a b) (
    digits-lt (λ y. 0) min (λ x y p q. omega arith) (λ w b h. omega (arith, one-le-pow w 2)) a w a b
      p q)

pub digit-pow : (j k : ℕ) → digit j (2 ^ k) ≡ (if j == k then 1 else 0)
unfolding digit
digit-pow zero zero = refl
digit-pow zero (suc k) = ground (arith, pow-suc 2 k)
digit-pow (suc j) zero = digit-zero j ∙ ground arith
digit-pow (suc j) (suc k) = ap (digit j) (omega (arith, pow-suc 2 k)) ∙ digit-pow j k ∙ ground arith

-- The digits of `!x` in a word of `w` digits.
pub digit-complement : (w j x : ℕ) → j < w → x < 2 ^ w → digit j (2 ^ w - 1 - x) ≡ 1 - digit j x
unfolding digit
digit-complement zero j x h p = absurd (omega arith)
digit-complement (suc w) zero x h p = omega (arith, pow-suc 2 w)
digit-complement (suc w) (suc j) x h p =
    ap (digit j) (omega (arith, pow-suc 2 w))
    ∙ digit-complement w j (x / 2) (omega arith) (omega (arith, pow-suc 2 w))

-- A word is zero, or one of its digits is set.
pub digit_cases : (w x : ℕ) → x < 2 ^ w → (x ≡ 0) ⊎ ((k : ℕ) × (k < w) × (digit k x ≡ 1))
unfolding digit
digit_cases zero x h = inl (omega arith)
digit_cases (suc w) x h = split (x % 2) refl (digit_cases w (x / 2) (omega (arith, pow-suc 2 w)))
  where
    split :
        (r : ℕ)
        → x % 2 ≡ r
        → (x / 2 ≡ 0) ⊎ ((k : ℕ) × (k < w) × (digit k (x / 2) ≡ 1))
        → (x ≡ 0) ⊎ ((k : ℕ) × (k < suc w) × (digit k x ≡ 1))
    split (suc r) e rest = inr (0, omega arith, omega arith)
    split zero e (inl h) = inl (omega arith)
    split zero e (inr (k, lt, d)) = inr (suc k, omega arith, d)
