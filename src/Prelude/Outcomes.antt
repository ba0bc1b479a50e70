-- ===== src/Prelude/Outcomes.antt =====
-- The standard library's `Result` and `Poll`, and the errors of `std::io` that the crates make.

pub data Result {ℓ κ} (E : Type ℓ) (A : Type κ) : Type (ℓ ⊔ κ) where
  ok : A → Result E A
  err : E → Result E A

pub data Poll {ℓ} (A : Type ℓ) : Type ℓ where
  pending : Poll A
  ready : A → Poll A

-- `other` carries an error of the operating system, which the code passes on unread.
pub data IoError {ℓ} (O : Type ℓ) : Type ℓ where
  invalid_data : IoError O
  write_zero : IoError O
  other : O → IoError O
