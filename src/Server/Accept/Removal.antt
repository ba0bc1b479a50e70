-- ===== src/Server/Accept/Removal.antt =====
-- `Vec::swap_remove` on the handles of the accept thread (actix-server/src/accept.rs).
use actix_net.Prelude.{
  ℕ, ◌-◌, ◌≤◌, ◌<◌, ◌≡◌, ◌≢◌, refl, ap, ◌∙◌, List, some, length, get_elem?, set, take, ◌==◌,
  if◌then◌else◌, length-take, arith, Bool-cases, inl, inr, ltb, ltb→lt,
}
use actix_net.Prelude.Access.{
  length-set, get_elem?-set, get_elem?-take, get_elem?-lt, get_elem?-some, last?-get_elem?, set-ge,
}
use actix_net.Server.Accept.{swap_remove}

-- The place of an element after the removal at `i` from `n` elements, and the place before.
pub new_place : ℕ → ℕ → ℕ → ℕ
new_place n i j = if j == n - 1 then i else j

pub old_place : ℕ → ℕ → ℕ → ℕ
old_place n i j = if j == i then n - 1 else j

module _ {A : Type 0} where
  swap_remove-set :
      (xs : List A) (i : ℕ)
      → i < length xs
      → (l : A) × (get_elem? xs (length xs - 1) ≡ some l)
        × (swap_remove xs i ≡ set (take (length xs - 1) xs) i l)
  unfolding swap_remove
  swap_remove-set xs i h =
      let (l, e) = get_elem?-some xs (length xs - 1) (omega arith) in
      (l, e, rw (last?-get_elem? xs ∙ e, swap_remove) refl)

  pub length-swap_remove :
      (xs : List A) (i : ℕ) → i < length xs → length (swap_remove xs i) ≡ length xs - 1
  length-swap_remove xs i h =
      let (l, _, e) = swap_remove-set xs i h in
      ap length e
      ∙ length-set (take (length xs - 1) xs) i l
      ∙ omega (arith, length-take (length xs - 1) xs)

  -- The element at `j` after the removal of the one at `i`.
  pub get_elem?-swap_remove :
      (xs : List A) (i j : ℕ)
      → i < length xs
      → j < length xs - 1
      → get_elem? (swap_remove xs i) j ≡ get_elem? xs (old_place (length xs) i j)
  unfolding old_place
  get_elem?-swap_remove xs i j h g = found (swap_remove-set xs i h)
    where
      kept : get_elem? (take (length xs - 1) xs) j ≡ get_elem? xs j
      kept = get_elem?-take (length xs - 1) j xs g

      found :
          (l : A) × (get_elem? xs (length xs - 1) ≡ some l)
            × (swap_remove xs i ≡ set (take (length xs - 1) xs) i l)
          → get_elem? (swap_remove xs i) j ≡ get_elem? xs (if j == i then length xs - 1 else j)
      found (l, e, s) = elim (Bool-cases (ltb i (length xs - 1))) [
        | inl lt ↦ rw s (
            get_elem?-set (take (length xs - 1) xs) i j l
              (omega (arith, ltb→lt _ _ lt, length-take (length xs - 1) xs))
            ∙ ground (arith, kept, e))
        | inr ge ↦
            let last : length xs - 1 ≤ i = ground arith in
            rw
              (
                s,
                set-ge (take (length xs - 1) xs) i l
                    (omega (arith, length-take (length xs - 1) xs)),
              )
              (ground (arith, kept))
      ]

  -- An element at another place than the removed one stays.
  pub swap_remove-keeps :
      (xs : List A) (i j : ℕ) (v : A)
      → i < length xs
      → j ≢ i
      → get_elem? xs j ≡ some v
      → get_elem? (swap_remove xs i) (new_place (length xs) i j) ≡ some v
  unfolding new_place old_place
  swap_remove-keeps xs i j v h ne e =
      let g : j < length xs = get_elem?-lt xs j {v = v} e in
      ground (arith, get_elem?-swap_remove xs i i h, get_elem?-swap_remove xs i j h)

  -- What is there after the removal was there before, at another place than the removed one.
  pub swap_remove-old :
      (xs : List A) (i j : ℕ) (v : A)
      → i < length xs
      → get_elem? (swap_remove xs i) j ≡ some v
      → (get_elem? xs (old_place (length xs) i j) ≡ some v) × (old_place (length xs) i j ≢ i)
  unfolding old_place
  swap_remove-old xs i j v h e =
      let g : j < length xs - 1 =
        omega (arith, get_elem?-lt (swap_remove xs i) j {v = v} e, length-swap_remove xs i h) in
      ground (arith, get_elem?-swap_remove xs i j h g)
