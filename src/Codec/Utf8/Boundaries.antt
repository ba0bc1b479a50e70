-- ===== src/Codec/Utf8/Boundaries.antt =====
-- Where the characters of a text begin: ASCII texts, and texts that are cut between two characters.
use actix_net.Prelude.{
  ℕ, ◌≡◌, refl, ap, ◌∙◌, sym, Bool, true, false, ◌&&◌, ◌||◌, [], ◌∷◌, ◌++◌, ltb, leb, ◌⊎◌,
  Bool-cases, inl, inr, if_true, arith,
}
use actix_net.Codec.Utf8.{
  Bytes, is_utf8, utf8_run, utf8_step, utf8_run-append, is_boundary, lead, Utf8State, boundary, one,
  two, three, after_e0, after_ed, after_f0, after_f4, invalid,
}

-- An ASCII byte is a character.
ascii_step : (b : ℕ) → ltb b 128 ≡ true → utf8_step boundary b ≡ boundary
unfolding utf8_step lead
ascii_step b h = if_true (ltb b 0x80) boundary _ h

-- `is_ascii` of the standard library.
abbrev pub is_ascii : Bytes → Bool
is_ascii [] = true
is_ascii (b ∷ bs) = ltb b 128 && is_ascii bs

ascii_run : (bs : Bytes) → is_ascii bs ≡ true → utf8_run boundary bs ≡ boundary
unfolding utf8_run
ascii_run [] h = refl
ascii_run (b ∷ bs) h = elim (Bool-cases (ltb b 128)) [
  | inl e ↦
      ap (λ t. utf8_run t bs) (ascii_step b e)
      ∙ ascii_run bs (sym (ap (λ c. c && is_ascii bs) e) ∙ h)
  | inr e ↦ absurd (cc (h, ap (λ c. c && is_ascii bs) e))
]

-- An ASCII sequence is a text.
pub is_ascii-is_utf8 : (bs : Bytes) → is_ascii bs ≡ true → is_utf8 bs ≡ true
unfolding is_utf8
is_ascii-is_utf8 bs h = ap is_boundary (ascii_run bs h)

-- A byte that continues no character leads nowhere but from a boundary.
begins_step :
    (s : Utf8State) (b : ℕ)
    → (ltb b 128 || leb 192 b) ≡ true
    → (s ≡ boundary) ⊎ (utf8_step s b ≡ invalid)
unfolding utf8_step
begins_step boundary b h = inl refl
begins_step one b h = inr (ground arith)
begins_step two b h = inr (ground arith)
begins_step three b h = inr (ground arith)
begins_step after_e0 b h = inr (ground arith)
begins_step after_ed b h = inr (ground arith)
begins_step after_f0 b h = inr (ground arith)
begins_step after_f4 b h = inr (ground arith)
begins_step invalid b h = inr refl

run-invalid : (bs : Bytes) → utf8_run invalid bs ≡ invalid
unfolding utf8_run utf8_step
run-invalid [] = refl
run-invalid (b ∷ bs) = run-invalid bs

is_boundary_lem : (s : Utf8State) → is_boundary s ≡ true → s ≡ boundary
is_boundary_lem boundary h = refl
is_boundary_lem one h = absurd (cc h)
is_boundary_lem two h = absurd (cc h)
is_boundary_lem three h = absurd (cc h)
is_boundary_lem after_e0 h = absurd (cc h)
is_boundary_lem after_ed h = absurd (cc h)
is_boundary_lem after_f0 h = absurd (cc h)
is_boundary_lem after_f4 h = absurd (cc h)
is_boundary_lem invalid h = absurd (cc h)

-- What does not begin with a continuing byte.
abbrev pub Begins : Bytes → Type 0
Begins [] = Unit
Begins (b ∷ bs) = (ltb b 128 || leb 192 b) ≡ true

at_boundary :
    (s : Utf8State) (ys : Bytes) → Begins ys → is_boundary (utf8_run s ys) ≡ true → s ≡ boundary
unfolding utf8_run
at_boundary s [] begins h = is_boundary_lem s h
at_boundary s (y ∷ ys) begins h = elim (begins_step s y begins) [
  | inl e ↦ e
  | inr e ↦
      let lost : is_boundary (utf8_run (utf8_step s y) ys) ≡ false =
        ap (λ t. is_boundary (utf8_run t ys)) e ∙ ap is_boundary (run-invalid ys) in
      absurd (cc (h, lost))
]

-- A text that is cut before such a byte is two texts.
pub is_utf8-cut :
    (xs ys : Bytes)
    → Begins ys
    → is_utf8 (xs ++ ys) ≡ true
    → (is_utf8 xs ≡ true) × (is_utf8 ys ≡ true)
unfolding is_utf8
is_utf8-cut xs ys begins h =
    let whole = ap is_boundary (sym (utf8_run-append boundary xs ys)) ∙ h in
    let cut = at_boundary (utf8_run boundary xs) ys begins whole in
    (ap is_boundary cut, ap (λ s. is_boundary (utf8_run s ys)) (sym cut) ∙ whole)

continues_step : (b : ℕ) → (ltb b 128 || leb 192 b) ≡ false → utf8_step boundary b ≡ invalid
unfolding utf8_step lead
continues_step b h = ground arith

-- A text does not go on with a continuing byte after a text.
pub is_utf8-continues :
    (xs ys : Bytes) (y : ℕ)
    → (ltb y 128 || leb 192 y) ≡ false
    → is_utf8 (xs ++ y ∷ ys) ≡ true
    → is_utf8 xs ≡ false
unfolding is_utf8 utf8_run
is_utf8-continues xs ys y h whole = elim (Bool-cases (is_boundary (utf8_run boundary xs))) [
  | inr e ↦ e
  | inl e ↦
      let lost : is_boundary (utf8_run boundary (xs ++ y ∷ ys)) ≡ false =
        ap is_boundary (utf8_run-append boundary xs (y ∷ ys))
        ∙ ap (λ t. is_boundary (utf8_run (utf8_step t y) ys)) (is_boundary_lem _ e)
        ∙ ap (λ t. is_boundary (utf8_run t ys)) (continues_step y h)
        ∙ ap is_boundary (run-invalid ys) in
      absurd (cc (whole, lost))
]
