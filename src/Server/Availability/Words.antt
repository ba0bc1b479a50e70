-- ===== src/Server/Availability/Words.antt =====
-- One word of actix-server/src/availability.rs: its bits and their updates.
use Prim.Native.Nat.{bit_and}
use native.Mathlib.Nat.{pow-suc, one-le-pow}
use actix_net.Prelude.{
  ℕ, zero, suc, ◌^◌, ◌<◌, ◌≡◌, ap, Bool, true, false, ◌==◌, if◌then◌else◌, ==_iff, ◌≢◌, inl, inr,
  arith,
}
use actix_net.Prelude.Digits.{
  digit, digit-le-one, digit-zero, digit-bit_or, digit-bit_and, digit-pow, digit-complement,
  digit_cases, bit_or-lt, bit_and-lt,
}
use actix_net.Server.Availability.{u128_bits, get_bit, set_bit, complement}

-- A bit, by arithmetic.
abbrev pub bit : ℕ → ℕ → Bool
bit w k = digit k w == 1

pow-lt-pow : (k w : ℕ) → k < w → 2 ^ k < 2 ^ w
pow-lt-pow zero zero h = absurd (omega arith)
pow-lt-pow zero (suc w) h = omega (arith, pow-suc 2 w, one-le-pow w 2)
pow-lt-pow (suc k) zero h = absurd (omega arith)
pow-lt-pow (suc k) (suc w) h = omega (arith, pow-suc 2 w, pow-suc 2 k, pow-lt-pow k w (omega arith))

mask-digits : (w k j : ℕ) → digit j (bit_and w (2 ^ k)) ≡ (if j == k then digit k w else 0)
mask-digits w k j =
    ground (arith, digit-bit_and j w (2 ^ k), digit-pow j k, digit-le-one j w, ==_iff j k)

pub get_bit-bit : (w k : ℕ) → w < 2 ^ u128_bits → k < u128_bits → get_bit w k ≡ bit w k
unfolding get_bit
get_bit-bit w k h lt = elim (digit_cases u128_bits (bit_and w (2 ^ k)) mask-lt) [
  | inl e ↦ rw e (ground (arith, ap (digit k) e, digit-zero k, mask-digits w k k, digit-le-one k w))
  | inr (j, _, d) ↦ ground (arith, found j d, mask-digits w k j, digit-le-one k w)
]
  where
    mask-lt : bit_and w (2 ^ k) < 2 ^ u128_bits
    mask-lt = bit_and-lt u128_bits w (2 ^ k) h (pow-lt-pow k u128_bits lt)

    found : (j : ℕ) → digit j (bit_and w (2 ^ k)) ≡ 1 → bit_and w (2 ^ k) ≢ 0
    found j d e = omega (arith, digit-zero j, d, ap (digit j) e)

pub set_bit-lt :
    (w k : ℕ) (b : Bool) → w < 2 ^ u128_bits → k < u128_bits → set_bit w k b < 2 ^ u128_bits
unfolding set_bit
set_bit-lt w k true h lt = bit_or-lt u128_bits w (2 ^ k) h (pow-lt-pow k u128_bits lt)
set_bit-lt w k false h lt = bit_and-lt u128_bits w (complement (2 ^ k)) h (omega arith)

-- One bit is written, and the others stay.
pub bit-set_bit :
    (w k j : ℕ) (b : Bool)
    → k < u128_bits
    → j < u128_bits
    → bit (set_bit w k b) j ≡ (if j == k then b else bit w j)
unfolding set_bit
bit-set_bit w k j true h g =
    ground (arith, digit-bit_or j w (2 ^ k), digit-pow j k, digit-le-one j w)
bit-set_bit w k j false h g = ground (
  arith,
  digit-bit_and j w (complement (2 ^ k)),
  digit-complement u128_bits j (2 ^ k) g (pow-lt-pow k u128_bits h),
  digit-pow j k,
  digit-le-one j w,
)
