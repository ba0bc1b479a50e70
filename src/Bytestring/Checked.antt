-- ===== src/Bytestring/Checked.antt =====
-- The checked conversions of bytestring/src/lib.rs: the test for ASCII saves the check, and changes
-- nothing.
use actix_net.Prelude.{
  ◌≡◌, ap, sym, ◌∙◌, true, Result, ok, err, if◌then◌else◌, Bool-cases, inl, inr, if_true, if_false,
}
use actix_net.Codec.Utf8.{Bytes, is_utf8}
use actix_net.Codec.Utf8.Boundaries.{is_ascii, is_ascii-is_utf8}
use actix_net.Bytestring.{
  ByteString, from_utf8, checked, of_string, try_from, try_from_vec, from_bytes_unchecked,
}

-- A text is taken, and nothing else.
abbrev pub text_or_error : Bytes → Result (Unit {0}) ByteString
text_or_error value = if is_utf8 value then ok (from_bytes_unchecked value) else err tt

checked_lem : (value : Bytes) → checked value (from_utf8 value) ≡ text_or_error value
unfolding from_bytes_unchecked
checked_lem value = elim (Bool-cases (is_utf8 value)) [
  | inl e ↦ ap (checked value) (if_true (is_utf8 value) _ _ e) ∙ sym (if_true (is_utf8 value) _ _ e)
  | inr e ↦
      ap (checked value) (if_false (is_utf8 value) _ _ e) ∙ sym (if_false (is_utf8 value) _ _ e)
]

of_string_lem : (value : Bytes) → of_string (from_utf8 value) ≡ text_or_error value
unfolding from_bytes_unchecked
of_string_lem value = elim (Bool-cases (is_utf8 value)) [
  | inl e ↦ ap of_string (if_true (is_utf8 value) _ _ e) ∙ sym (if_true (is_utf8 value) _ _ e)
  | inr e ↦ ap of_string (if_false (is_utf8 value) _ _ e) ∙ sym (if_false (is_utf8 value) _ _ e)
]

ascii_text :
    (value : Bytes) → is_ascii value ≡ true → ok (from_bytes_unchecked value) ≡ text_or_error value
ascii_text value a = sym (if_true (is_utf8 value) _ _ (is_ascii-is_utf8 value a))

-- `TryFrom` for slices and for vectors gives a text with the same bytes when the bytes are UTF-8, and
-- otherwise an error: that ASCII bytes are not checked makes no difference.
pub try_from_lem :
    (value : Bytes)
    → (try_from value ≡ text_or_error value) × (try_from_vec value ≡ text_or_error value)
unfolding try_from try_from_vec from_bytes_unchecked
try_from_lem value = elim (Bool-cases (is_ascii value)) [
  | inl a ↦ (
    if_true (is_ascii value) _ _ a ∙ ascii_text value a,
    if_true (is_ascii value) _ _ a ∙ ascii_text value a,
  )
  | inr a ↦ (
    if_false (is_ascii value) _ _ a ∙ checked_lem value,
    if_false (is_ascii value) _ _ a ∙ of_string_lem value,
  )
]
