-- ===== src/Server/Availability/Laws.antt =====
-- actix-server/src/availability.rs as a set of worker indices below 512.
use actix_net.Prelude.{
  ℕ, zero, suc, ◌+◌, ◌*◌, ◌/◌, ◌%◌, ◌^◌, ◌≤◌, ◌<◌, ◌≡◌, refl, ap, ◌∙◌, ◌↔◌, Bool, true, false, List,
  [], ◌∷◌, ◌==◌, if◌then◌else◌, inl, inr, length, set, All, arith,
}
use actix_net.Prelude.Digits.{digit-zero, digit_cases}
use actix_net.Prelude.Panics.{done, panicked}
use actix_net.Server.Availability.{
  Availability, max_workers, u128_bits, default, word, any_nonzero, available, offset, set_bit,
  get_available, set_available,
}
use actix_net.Server.Availability.Words.{bit, get_bit-bit, set_bit-lt, bit-set_bit}

abbrev IsWord : ℕ → Type 0
IsWord w = w < 2 ^ u128_bits

-- Four words of 128 bits.
pub record IsValid (a : Availability) : Type 0 where
  pub four : length a.words ≡ 4
  pub fits : All IsWord a.words

-- Whether an index is marked as available.
unfoldable pub is_set : Availability → ℕ → Bool
is_set a i = bit (word a.words (i / 128)) (i % 128)

offset_lem : (i : ℕ) → i < max_workers → offset i ≡ done (i / 128, i % 128)
unfolding offset
offset_lem i h = ground arith

word-lt : (ws : List ℕ) (o : ℕ) → All IsWord ws → word ws o < 2 ^ u128_bits
word-lt [] o h = omega arith
word-lt (w ∷ ws) zero h = h.0
word-lt (w ∷ ws) (suc o) h = word-lt ws o h.1

word-set :
    (ws : List ℕ) (o p v : ℕ)
    → o < length ws
    → word (set ws o v) p ≡ (if p == o then v else word ws p)
word-set [] o p v h = absurd (omega arith)
word-set (w ∷ ws) zero zero v h = refl
word-set (w ∷ ws) zero (suc p) v h = ground arith
word-set (w ∷ ws) (suc o) zero v h = ground arith
word-set (w ∷ ws) (suc o) (suc p) v h = word-set ws o p v (omega arith) ∙ ground arith

set-All : (ws : List ℕ) (o v : ℕ) → IsWord v → All IsWord ws → All IsWord (set ws o v)
set-All [] o v h a = tt
set-All (w ∷ ws) zero v h a = (h, a.1)
set-All (w ∷ ws) (suc o) v h a = (a.0, set-All ws o v h a.1)

length-set : (ws : List ℕ) (o v : ℕ) → length (set ws o v) ≡ length ws
length-set [] o v = refl
length-set (w ∷ ws) zero v = refl
length-set (w ∷ ws) (suc o) v = ap suc (length-set ws o v)

pub get_available-is_set :
    (a : Availability) (i : ℕ) → IsValid a → i < max_workers → get_available a i ≡ done (is_set a i)
unfolding is_set get_available
get_available-is_set a i v h =
    rw (offset_lem i h)
      (ap (λ (b : Bool). done b) (get_bit-bit _ _ (word-lt a.words (i / 128) v.fits) (omega arith)))

-- What a write leaves: the index holds the new mark, and every other index its own.
pub record IsUpdated (a : Availability) (i : ℕ) (b : Bool) (a' : Availability) : Type 0 where
  pub valid : IsValid a'
  pub marks : (j : ℕ) → j < max_workers → is_set a' j ≡ (if j == i then b else is_set a j)

abbrev written : Availability → ℕ → Bool → Availability
written a i b = record {
  words = set a.words (i / 128) (set_bit (word a.words (i / 128)) (i % 128) b);
}

written-IsUpdated :
    (a : Availability) (i : ℕ) (b : Bool)
    → IsValid a
    → i < max_workers
    → IsUpdated a i b (written a i b)
unfolding is_set
written-IsUpdated a i b v h = record {
  valid = record {
    four = length-set a.words _ _ ∙ v.four;
    fits =
        set-All a.words (i / 128) _
          (set_bit-lt _ (i % 128) b (word-lt a.words (i / 128) v.fits) (omega arith)) v.fits;
  };
  marks = λ j g. ground (
    arith,
    word-set a.words (i / 128) (j / 128) (set_bit (word a.words (i / 128)) (i % 128) b)
        (omega (arith, v.four)),
    bit-set_bit (word a.words (i / 128)) (i % 128) (j % 128) b (omega arith) (omega arith),
  );
}

-- Below the maximum, a mark is written and no other mark changes.
pub set_available-IsUpdated :
    (a : Availability) (i : ℕ) (b : Bool)
    → IsValid a
    → i < max_workers
    → (a' : Availability) × (set_available a i b ≡ done a') × IsUpdated a i b a'
unfolding set_available
set_available-IsUpdated a i b v h =
    (written a i b, rw (offset_lem i h) refl, written-IsUpdated a i b v h)

pub set_available_panics :
    (a : Availability) (i : ℕ) (b : Bool) → max_workers ≤ i → set_available a i b ≡ panicked
unfolding set_available offset
set_available_panics a i b h = ground arith

any_nonzero_found :
    (ws : List ℕ)
    → All IsWord ws
    → any_nonzero ws ≡ true
    → (i : ℕ) × (i < 128 * length ws) × (bit (word ws (i / 128)) (i % 128) ≡ true)
unfolding any_nonzero
any_nonzero_found [] f h = absurd (ground arith)
any_nonzero_found (w ∷ ws) f h = elim (digit_cases u128_bits w f.0) [
  | inr (k, lt, d) ↦ (k, omega arith, ground arith)
  | inl e ↦ shift (any_nonzero_found ws f.1 (ground arith))
]
  where
    shift :
        (i : ℕ) × (i < 128 * length ws) × (bit (word ws (i / 128)) (i % 128) ≡ true)
        → (i : ℕ) × (i < 128 * length (w ∷ ws)) × (bit (word (w ∷ ws) (i / 128)) (i % 128) ≡ true)
    shift (i, lt, e) =
        let o : (i + 128) / 128 ≡ suc (i / 128) = omega arith in
        let k : (i + 128) % 128 ≡ i % 128 = omega arith in (i + 128, omega arith, rw (o, k) e)

nonzero_of_bit : (ws : List ℕ) (o k : ℕ) → bit (word ws o) k ≡ true → any_nonzero ws ≡ true
unfolding any_nonzero
nonzero_of_bit [] o k h = ground (arith, digit-zero k)
nonzero_of_bit (w ∷ ws) zero k h = ground (arith, digit-zero k)
nonzero_of_bit (w ∷ ws) (suc o) k h = ground (arith, nonzero_of_bit ws o k h)

-- `available` tells whether some index is marked.
pub available-is_set :
    (a : Availability)
    → IsValid a
    → (available a ≡ true) ↔ ((i : ℕ) × (i < max_workers) × (is_set a i ≡ true))
unfolding available is_set
available-is_set a v = (
  λ h. found (any_nonzero_found a.words v.fits h),
  λ x. nonzero_of_bit a.words (x.0 / 128) (x.0 % 128) x.2,
)
  where
    found :
        (i : ℕ) × (i < 128 * length a.words) × (bit (word a.words (i / 128)) (i % 128) ≡ true)
        → (i : ℕ) × (i < max_workers) × (bit (word a.words (i / 128)) (i % 128) ≡ true)
    found (i, lt, e) = (i, omega (arith, v.four), e)

pub default-IsValid : IsValid default
unfolding default
default-IsValid = omega arith

pub default-is_set : (i : ℕ) → i < max_workers → is_set default i ≡ false
unfolding default is_set
default-is_set i h = ground (arith, no_word (i / 128), digit-zero (i % 128))
  where
    no_word : (o : ℕ) → word (0 ∷ 0 ∷ 0 ∷ 0 ∷ []) o ≡ 0
    no_word zero = refl
    no_word (suc zero) = refl
    no_word (suc (suc zero)) = refl
    no_word (suc (suc (suc zero))) = refl
    no_word (suc (suc (suc (suc o)))) = refl
