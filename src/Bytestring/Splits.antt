-- ===== src/Bytestring/Splits.antt =====
-- `ByteString::split_at` (bytestring/src/lib.rs): both parts are texts, without a check.
use actix_net.Prelude.{
  ℕ, zero, suc, ◌≤◌, ◌<◌, ◌≡◌, refl, ap, sym, subst, ◌∙◌, true, false, [], ◌∷◌, ◌++◌, take, drop,
  length, get_elem?, some, leb, ◌==◌, Bool-cases, inl, inr, ◌⊎◌, if_true, if_false, arith,
  take-append-drop, length-take,
}
use actix_net.Prelude.Access.{get_elem?-lt, get_elem?-some}
use actix_net.Prelude.Panics.{done, panicked}
use actix_net.Codec.Utf8.{Bytes, is_utf8}
use actix_net.Codec.Utf8.Boundaries.{Begins, is_utf8-cut, is_utf8-continues}
use actix_net.Bytestring.{
  ByteString, IsText, is_char_boundary, begins, split_at, deref, from_bytes_unchecked,
}

-- The rest of a list from an element on.
drop-get_elem? :
    (bs : Bytes) (i b : ℕ) → get_elem? bs i ≡ some b → (rest : Bytes) × (drop i bs ≡ b ∷ rest)
drop-get_elem? [] i b h = absurd (cc h)
drop-get_elem? (x ∷ xs) zero b h = let same : x ≡ b = cc h in (xs, ap (λ y. y ∷ xs) same)
drop-get_elem? (x ∷ xs) (suc i) b h = drop-get_elem? xs i b h

drop-length : (bs : Bytes) (i : ℕ) → i ≡ length bs → drop i bs ≡ []
drop-length [] zero h = refl
drop-length [] (suc i) h = refl
drop-length (x ∷ xs) zero h = absurd (omega (arith, h))
drop-length (x ∷ xs) (suc i) h = drop-length xs i (omega (arith, h))

-- An index that is a boundary.
data IsCut (bs : Bytes) (i : ℕ) : Type 0 where
  at_start : i ≡ 0 → IsCut bs i
  at_end : i ≡ length bs → IsCut bs i
  inside : (b : ℕ) → get_elem? bs i ≡ some b → begins (some b) ≡ true → IsCut bs i

-- An index that is none.
data IsNoCut (bs : Bytes) (i : ℕ) : Type 0 where
  outside : length bs < i → IsNoCut bs i
  within : (b : ℕ) → get_elem? bs i ≡ some b → begins (some b) ≡ false → IsNoCut bs i

boundary_cases :
    (bs : Bytes) (i : ℕ)
    → ((is_char_boundary bs i ≡ true) × IsCut bs i)
      ⊎ ((is_char_boundary bs i ≡ false) × IsNoCut bs i)
boundary_cases bs i = elim (Bool-cases (i == 0)) [
  | inl e ↦ inl (if_true (i == 0) _ _ e, at_start (ground arith))
  | inr e ↦ elim (Bool-cases (leb (length bs) i)) [
    | inl f ↦ elim (Bool-cases (i == length bs)) [
      | inl g ↦
          inl
            (if_false (i == 0) _ _ e ∙ if_true (leb (length bs) i) _ _ f ∙ g, at_end (ground arith))
      | inr g ↦
          inr (
            if_false (i == 0) _ _ e ∙ if_true (leb (length bs) i) _ _ f ∙ g,
            outside (ground arith),
          )
    ]
    | inr f ↦
        let (b, at) = get_elem?-some bs i (ground arith) in
        elim (Bool-cases (begins (some b))) [
          | inl g ↦ inl (
            if_false (i == 0) _ _ e ∙ if_false (leb (length bs) i) _ _ f ∙ ap begins at ∙ g,
            inside b at g,
          )
          | inr g ↦ inr (
            if_false (i == 0) _ _ e ∙ if_false (leb (length bs) i) _ _ f ∙ ap begins at ∙ g,
            within b at g,
          )
        ]
  ]
]

cut-Begins : (bs : Bytes) (i : ℕ) → IsCut bs i → (i ≡ 0) ⊎ ((i ≤ length bs) × Begins (drop i bs))
cut-Begins bs i (at_start e) = inl e
cut-Begins bs i (at_end e) = inr (omega (arith, e), subst Begins (sym (drop-length bs i e)) tt)
cut-Begins bs i (inside b at g) =
    let (rest, e) = drop-get_elem? bs i b at in
    let inside_it = get_elem?-lt bs i at in inr (omega (arith, inside_it), subst Begins (sym e) g)

cut-IsText :
    (bs : Bytes) (i : ℕ)
    → IsText bs
    → (i ≡ 0) ⊎ ((i ≤ length bs) × Begins (drop i bs))
    → IsText (take i bs) × IsText (drop i bs) × (length (take i bs) ≡ i)
unfolding is_utf8
cut-IsText bs i text (inl e) = rw e (refl, text, refl)
cut-IsText bs i text (inr (small, begin)) =
    let (a, b) =
      is_utf8-cut (take i bs) (drop i bs) begin (ap is_utf8 (take-append-drop i bs) ∙ text) in
    (a, b, length-take i bs ∙ omega (arith, small))

no_cut :
    (bs : Bytes) (i : ℕ)
    → IsText bs
    → IsNoCut bs i
    → (length bs < i) ⊎ (is_utf8 (take i bs) ≡ false)
no_cut bs i text (outside h) = inl h
no_cut bs i text (within b at g) =
    let (rest, e) = drop-get_elem? bs i b at in
    inr (
      is_utf8-continues (take i bs) rest b g
        (ap (λ ys. is_utf8 (take i bs ++ ys)) (sym e) ∙ ap is_utf8 (take-append-drop i bs) ∙ text))

-- The index of a text is cut at in one of two ways: `split_at` panics, and the index is past the end
-- or the bytes before it are no text; or it gives two texts, the first of that many bytes, which
-- are the text one after the other.
pub split_at_lem :
    (s : ByteString) (mid : ℕ)
    → IsText s.bytes
    → ((split_at s mid ≡ panicked)
        × ((length s.bytes < mid) ⊎ (is_utf8 (take mid s.bytes) ≡ false)))
      ⊎ ((first last : ByteString) × (split_at s mid ≡ done (first, last))
          × IsText first.bytes
          × IsText last.bytes
          × (length first.bytes ≡ mid)
          × (first.bytes ++ last.bytes ≡ s.bytes))
unfolding split_at deref from_bytes_unchecked
split_at_lem s mid text = elim (boundary_cases s.bytes mid) [
  | inr (e, none_there) ↦
      inl (if_false (is_char_boundary s.bytes mid) _ _ e, no_cut s.bytes mid text none_there)
  | inl (e, cut) ↦
      let (a, b, n) = cut-IsText s.bytes mid text (cut-Begins s.bytes mid cut) in
      inr (
        from_bytes_unchecked (take mid s.bytes),
        from_bytes_unchecked (drop mid s.bytes),
        if_true (is_char_boundary s.bytes mid) _ _ e,
        a,
        b,
        n,
        take-append-drop mid s.bytes,
      )
]
