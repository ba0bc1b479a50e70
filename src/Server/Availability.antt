-- ===== src/Server/Availability.antt =====
-- actix-server/src/availability.rs: one bit for each worker index, in four words of 128 bits.
mod Words
pub mod Laws
use Prim.Native.Nat.{bit_and, bit_or}
use actix_net.Prelude.{
  ℕ, ◌-◌, ◌^◌, ◌*◌, Bool, true, false, not, ◌||◌, List, [], ◌∷◌, ltb, ◌==◌, if◌then◌else◌, set,
}
use actix_net.Prelude.Panics.{Outcome, done, panicked, ◌>>=◌}

abbrev pub max_workers : ℕ
max_workers = 512

abbrev pub u128_bits : ℕ
u128_bits = 128

-- The array of `max_workers / u128_bits` words.
pub record Availability : Type 0 where
  pub words : List ℕ

unfoldable pub default : Availability
default = record { words = 0 ∷ 0 ∷ 0 ∷ 0 ∷ [] }

-- The word at an offset, which `offset` keeps below the length of the array.
abbrev pub word : List ℕ → ℕ → ℕ
word [] i = 0
word (x ∷ xs) ℕ.zero = x
word (x ∷ xs) (ℕ.suc i) = word xs i

unfoldable pub any_nonzero : List ℕ → Bool
any_nonzero [] = false
any_nonzero (x ∷ xs) = not (x == 0) || any_nonzero xs

unfoldable pub available : Availability → Bool
unfolding any_nonzero
available a = any_nonzero a.words

unfoldable pub offset : ℕ → Outcome (ℕ × ℕ)
offset idx =
    if ltb idx 128
    then done (0, idx)
    else if ltb idx (128 * 2)
    then done (1, idx - 128)
    else if ltb idx (128 * 3)
    then done (2, idx - 128 * 2)
    else if ltb idx (128 * 4)
    then done (3, idx - 128 * 3)
    else panicked

-- `!x` on 128 bits.
abbrev pub complement : ℕ → ℕ
complement x = 2 ^ u128_bits - 1 - x

unfoldable pub get_bit : ℕ → ℕ → Bool
get_bit w idx = not (bit_and w (2 ^ idx) == 0)

unfoldable pub set_bit : ℕ → ℕ → Bool → ℕ
set_bit w idx avail = if avail then bit_or w (2 ^ idx) else bit_and w (complement (2 ^ idx))

unfoldable pub get_available : Availability → ℕ → Outcome Bool
get_available a i = do (o, idx) ← offset i; done (get_bit (word a.words o) idx)

unfoldable pub set_available : Availability → ℕ → Bool → Outcome Availability
set_available a i avail = do
  (o, idx) ← offset i
  done (record { words = set a.words o (set_bit (word a.words o) idx avail) })

-- `set_available_all`, over the indices of the handles.
unfoldable pub set_available_all : Availability → List ℕ → Outcome Availability
set_available_all a [] = done a
set_available_all a (i ∷ is) = do b ← set_available a i true; set_available_all b is
