-- ===== src/Tls/Host/Ports.antt =====
-- Ports as texts, and hosts with a port (actix-tls/src/connect/host.rs).
use actix_net.Prelude.{
  ℕ, zero, suc, ◌+◌, ◌-◌, ◌*◌, ◌/◌, ◌%◌, ◌≤◌, ◌<◌, ◌≡◌, refl, ap, ◌∙◌, ltb, ◌==◌, true, false, ◌&&◌,
  [], ◌∷◌, ◌++◌, some, arith, Bool-cases, inl, inr,
}
use actix_net.Tls.Host.{Text, is_digit, parse_digits, parse_some, parse_u16, show_digits, show_u16}

parse_digits-one :
    (acc d : ℕ)
    → d < 10
    → acc * 10 + d < 65536
    → parse_digits acc ((48 + d) ∷ []) ≡ some (acc * 10 + d)
unfolding parse_digits
parse_digits-one acc d l f =
    let digit : is_digit (48 + d) ≡ true = ground arith in
    let same : acc * 10 + (48 + d - 48) ≡ acc * 10 + d = omega arith in
    let small : ltb (acc * 10 + d) 65536 ≡ true = ground arith in rw (digit, same, small) refl

-- One more digit behind a text.
parse_digits-append :
    (acc : ℕ) (xs : Text) (n d : ℕ)
    → parse_digits acc xs ≡ some n
    → d < 10
    → n * 10 + d < 65536
    → parse_digits acc (xs ++ (48 + d) ∷ []) ≡ some (n * 10 + d)
unfolding parse_digits
parse_digits-append acc [] n d e l f =
    let same : acc ≡ n = cc e in rw same (parse_digits-one n d l f)
parse_digits-append acc (x ∷ xs) n d e l f =
    elim (Bool-cases (is_digit x && ltb (acc * 10 + (x - 48)) 65536)) [
      | inl fits ↦ rw fits (parse_digits-append (acc * 10 + (x - 48)) xs n d (rw fits at e) l f)
      | inr too_large ↦ absurd (cc (rw too_large at e))
    ]

parse_digits-digit : (d : ℕ) → d < 10 → parse_digits 0 ((48 + d) ∷ []) ≡ some d
parse_digits-digit d l = parse_digits-one 0 d l (omega arith) ∙ ap some (omega arith)

-- The first number that is too large for the digits.
abbrev pub digits_bound : ℕ → ℕ
digits_bound zero = 10
digits_bound (suc k) = digits_bound k * 10

show_digits-parse :
    (k n : ℕ) → n < digits_bound k → n < 65536 → parse_digits 0 (show_digits k n) ≡ some n
unfolding show_digits
show_digits-parse zero n l f = parse_digits-digit n l
show_digits-parse (suc k) n l f = elim (Bool-cases (ltb n 10)) [
  | inl one_digit ↦ rw one_digit (parse_digits-digit n (ground arith))
  | inr more ↦
      let whole : n / 10 * 10 + n % 10 ≡ n = omega arith in
      rw more (
        parse_digits-append 0 (show_digits k (n / 10)) (n / 10) (n % 10)
          (show_digits-parse k (n / 10) (omega (arith, l)) (omega arith)) (omega arith)
          (omega arith)
        ∙ ap some whole)
]

-- A text begins with a digit.
abbrev StartsWithDigit : Text → Type 0
StartsWithDigit [] = ⊥
StartsWithDigit (x ∷ xs) = (48 ≤ x) × (x ≤ 57)

StartsWithDigit-append : (xs ys : Text) → StartsWithDigit xs → StartsWithDigit (xs ++ ys)
StartsWithDigit-append [] ys h = absurd h
StartsWithDigit-append (x ∷ xs) ys h = h

show_digits-StartsWithDigit : (k n : ℕ) → n < digits_bound k → StartsWithDigit (show_digits k n)
unfolding show_digits
show_digits-StartsWithDigit zero n l = (omega arith, omega (arith, l))
show_digits-StartsWithDigit (suc k) n l = elim (Bool-cases (ltb n 10)) [
  | inl one_digit ↦ rw one_digit (omega arith, ground arith)
  | inr more ↦ rw more (
      StartsWithDigit-append (show_digits k (n / 10)) _
        (show_digits-StartsWithDigit k (n / 10) (omega (arith, l))))
]

parse_u16-digits : (xs : Text) → StartsWithDigit xs → parse_u16 xs ≡ parse_digits 0 xs
unfolding parse_u16 parse_some
parse_u16-digits [] h = absurd h
parse_u16-digits (x ∷ xs) h =
    let unsigned : (x == 43) ≡ false = ground (arith, h.0) in rw unsigned refl

pub show_u16-parse : (n : ℕ) → n < 65536 → parse_u16 (show_u16 n) ≡ some n
unfolding show_u16
show_u16-parse n l =
    parse_u16-digits (show_digits 4 n) (show_digits-StartsWithDigit 4 n (omega arith))
    ∙ show_digits-parse 4 n (omega arith) l

parse_digits-lt :
    (acc : ℕ) (xs : Text) (n : ℕ) → acc < 65536 → parse_digits acc xs ≡ some n → n < 65536
unfolding parse_digits
parse_digits-lt acc [] n l e = let same : acc ≡ n = cc e in omega arith
parse_digits-lt acc (x ∷ xs) n l e =
    elim (Bool-cases (is_digit x && ltb (acc * 10 + (x - 48)) 65536)) [
      | inl fits ↦ parse_digits-lt (acc * 10 + (x - 48)) xs n (ground arith) (rw fits at e)
      | inr too_large ↦ absurd (cc (rw too_large at e))
    ]

parse_some-lt : (xs : Text) (n : ℕ) → parse_some xs ≡ some n → n < 65536
unfolding parse_some
parse_some-lt [] n e = absurd (cc e)
parse_some-lt (x ∷ xs) n e = parse_digits-lt 0 (x ∷ xs) n (omega arith) e

pub parse_u16-lt : (xs : Text) (n : ℕ) → parse_u16 xs ≡ some n → n < 65536
unfolding parse_u16
parse_u16-lt [] n e = absurd (cc e)
parse_u16-lt (x ∷ xs) n e = elim (Bool-cases (x == 43)) [
  | inl plus ↦ parse_some-lt xs n (rw plus at e)
  | inr unsigned ↦ parse_some-lt (x ∷ xs) n (rw unsigned at e)
]
