-- ===== src/Tls/Host/Splits.antt =====
-- Texts cut at a character (actix-tls/src/connect/host.rs).
use actix_net.Prelude.{
  ℕ, ◌≡◌, refl, ap, ◌==◌, true, false, [], ◌∷◌, ◌++◌, Option, none, some, arith, Bool-cases, inl,
  inr, ==_iff,
}
use actix_net.Tls.Host.{Text, cons_first, split_once}

-- The text has no such character.
abbrev pub Lacks : ℕ → Text → Type 0
Lacks c xs = split_once c xs ≡ none

pub cons_first-none : (x : ℕ) (o : Option (Text × Text)) → cons_first x o ≡ none → o ≡ none
cons_first-none x none e = refl
cons_first-none x (some (before, after)) e = absurd (cc e)

pub split_once-append_none : (c : ℕ) (xs ys : Text) → Lacks c xs → Lacks c ys → Lacks c (xs ++ ys)
unfolding split_once
split_once-append_none c [] ys e f = f
split_once-append_none c (x ∷ xs) ys e f = elim (Bool-cases (x == c)) [
  | inl here ↦ absurd (cc (rw here at e))
  | inr other ↦
      let rest : Lacks c (xs ++ ys) =
        split_once-append_none c xs ys (cons_first-none x _ (rw other at e)) f in
      rw (other, rest) refl
]

-- A text is cut at the first of the character, whatever follows.
pub split_once-append :
    (c : ℕ) (xs ys : Text) → Lacks c xs → split_once c (xs ++ c ∷ ys) ≡ some (xs, ys)
unfolding split_once
split_once-append c [] ys e = let here : (c == c) ≡ true = ground arith in rw here refl
split_once-append c (x ∷ xs) ys e = elim (Bool-cases (x == c)) [
  | inl here ↦ absurd (cc (rw here at e))
  | inr other ↦
      let rest : split_once c (xs ++ c ∷ ys) ≡ some (xs, ys) =
        split_once-append c xs ys (cons_first-none x _ (rw other at e)) in
      rw (other, rest) refl
]

-- The first part of a cut lacks the character, and the text is both parts with it between them.
abbrev pub Parts : ℕ → Text → Option (Text × Text) → Type 0
Parts c xs none = Unit
Parts c xs (some (before, after)) = Lacks c before × (xs ≡ before ++ c ∷ after)

cons_first-Parts :
    (c x : ℕ) (xs : Text) (o : Option (Text × Text))
    → (x == c) ≡ false
    → Parts c xs o
    → Parts c (x ∷ xs) (cons_first x o)
unfolding split_once
cons_first-Parts c x xs none other p = tt
cons_first-Parts c x xs (some (before, after)) other (l, e) = (rw (other, l) refl, ap (◌∷◌ x) e)

pub split_once-Parts : (c : ℕ) (xs : Text) → Parts c xs (split_once c xs)
unfolding split_once
split_once-Parts c [] = tt
split_once-Parts c (x ∷ xs) = elim (Bool-cases (x == c)) [
  | inl here ↦ rw here (refl, ap (λ y. y ∷ xs) ((==_iff x c).0 here))
  | inr other ↦ rw other (cons_first-Parts c x xs (split_once c xs) other (split_once-Parts c xs))
]
