-- ===== src/Bytestring.antt =====
-- bytestring/src/lib.rs: a text that is kept as shared bytes. A `Bytes` is the list of its bytes, and
-- a `str` or a `String` too; the invariant of all of them is `IsText`. The hash of a `str`, and what a
-- serializer does with one, are parameters.
pub mod Checked
pub mod Splits
mod Tests
use actix_net.Prelude.{
  ℕ, ◌≡◌, Bool, true, false, ◌&&◌, ◌||◌, not, List, [], ◌∷◌, take, drop, length, get_elem?, Option,
  none, some, Result, ok, err, ltb, leb, ◌==◌, if◌then◌else◌,
}
use actix_net.Prelude.Panics.{Outcome, done, panicked}
use actix_net.Codec.Utf8.{Bytes, is_utf8}
use actix_net.Codec.Utf8.Boundaries.{is_ascii}

pub record ByteString : Type 0 where
  pub bytes : Bytes

abbrev pub IsText : Bytes → Type 0
IsText bs = is_utf8 bs ≡ true

-- `ByteString::new`.
unfoldable pub new : ByteString
new = record { bytes = [] }

-- `ByteString::from_bytes_unchecked`.
unfoldable pub from_bytes_unchecked : Bytes → ByteString
from_bytes_unchecked src = record { bytes = src }

-- `ByteString::from_static`, and `From` for `&str`, `String` and `Box<str>`.
unfoldable pub from_static : Bytes → ByteString
from_static src = record { bytes = src }

unfoldable pub from_string : Bytes → ByteString
from_string value = record { bytes = value }

unfoldable pub from_str : Bytes → ByteString
from_str value = record { bytes = value }

unfoldable pub from_box : Bytes → ByteString
from_box value = record { bytes = value }

-- `ByteString::as_bytes` and `ByteString::into_bytes`.
unfoldable pub as_bytes : ByteString → Bytes
as_bytes s = s.bytes

unfoldable pub into_bytes : ByteString → Bytes
into_bytes s = s.bytes

-- `deref`, which `AsRef<str>`, `Borrow<str>` and `String::from` agree with.
unfoldable pub deref : ByteString → Bytes
deref s = s.bytes

unfoldable pub into_string : ByteString → Bytes
into_string s = s.bytes

abbrev pub same_bytes : Bytes → Bytes → Bool
same_bytes [] [] = true
same_bytes [] (y ∷ ys) = false
same_bytes (x ∷ xs) [] = false
same_bytes (x ∷ xs) (y ∷ ys) = (x == y) && same_bytes xs ys

-- `PartialEq` with a `str`, and with what can be read as one.
unfoldable pub eq_str : ByteString → Bytes → Bool
unfolding deref
eq_str s other = same_bytes (deref s) other

-- `Hash`, by the hash of a `str`.
unfoldable pub hash {ℓ} : {H : Type ℓ} → (Bytes → H → H) → ByteString → H → H
unfolding deref
hash hash_str s state = hash_str (deref s) state

-- `Serialize` and `Deserialize`.
unfoldable pub serialize {ℓ} : {R : Type ℓ} → (Bytes → R) → ByteString → R
unfolding deref
serialize serialize_str s = serialize_str (deref s)

abbrev pub map_text : {E : Type 0} → Result E Bytes → Result E ByteString
map_text (ok value) = ok (from_string value)
map_text (err e) = err e

unfoldable pub deserialize : {D E : Type 0} → (D → Result E Bytes) → D → Result E ByteString
deserialize string d = map_text (string d)

-- `str::from_utf8` and `String::from_utf8`; the error's position is left out.
abbrev pub from_utf8 : Bytes → Result (Unit {0}) Bytes
from_utf8 value = if is_utf8 value then ok value else err tt

-- `TryFrom<&[u8]>`, and the arrays; those for `Bytes` and `BytesMut` have the same code.
abbrev pub checked : Bytes → Result (Unit {0}) Bytes → Result (Unit {0}) ByteString
checked value (ok x) = ok (record { bytes = value })
checked value (err e) = err e

unfoldable pub try_from : Bytes → Result (Unit {0}) ByteString
try_from value =
    if is_ascii value then ok (record { bytes = value }) else checked value (from_utf8 value)

-- `TryFrom<Vec<u8>>`, which goes through a `String`.
abbrev pub of_string : Result (Unit {0}) Bytes → Result (Unit {0}) ByteString
of_string (ok buf) = ok (record { bytes = buf })
of_string (err e) = err e

unfoldable pub try_from_vec : Bytes → Result (Unit {0}) ByteString
try_from_vec value =
    if is_ascii value then ok (record { bytes = value }) else of_string (from_utf8 value)

-- `str::is_char_boundary` of the standard library: the byte there does not continue a character.
abbrev pub begins : Option ℕ → Bool
begins none = false
begins (some b) = ltb b 128 || leb 192 b

abbrev pub is_char_boundary : Bytes → ℕ → Bool
is_char_boundary bs index =
    if index == 0
    then true
    else if leb (length bs) index
    then index == length bs
    else begins (get_elem? bs index)

-- `ByteString::split_at`, whose check of the index is `str::split_at`.
unfoldable pub split_at : ByteString → ℕ → Outcome (ByteString × ByteString)
unfolding deref from_bytes_unchecked
split_at s mid =
    if is_char_boundary (deref s) mid
    then done (from_bytes_unchecked (take mid s.bytes), from_bytes_unchecked (drop mid s.bytes))
    else panicked
