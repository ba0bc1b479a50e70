-- ===== src/Codec/Lines.antt =====
-- actix-codec/src/lines.rs: `LinesCodec`. A `BytesMut` is the list of the bytes that it holds.
-- `memchr` is a function of another crate, and so a parameter; `usize` has 64 bits.
pub mod Refinement
pub mod Bounds
pub mod Chunks
use mathlib.Core.Option
use actix_net.Prelude.{
  ℕ, ◌+◌, ◌-◌, Bool, true, false, not, ◌&&◌, List, [], ◌∷◌, ◌++◌, Option, none, some, length,
  is_empty, get_elem?, take, drop, last?, ltb, ◌==◌, if◌then◌else◌, min, Result, ok, err, IoError,
  invalid_data,
}
use actix_net.Codec.Utf8.{Bytes, is_utf8}

abbrev pub usize_max : ℕ
usize_max = 18446744073709551615

abbrev pub newline : ℕ
newline = 0x0a

abbrev pub carriage_return : ℕ
carriage_return = 0x0d

pub record LinesCodec : Type 0 where
  pub max_length : ℕ
  -- Next byte to examine for a newline after an incomplete decode.
  pub next_index : ℕ

unfoldable pub new : LinesCodec
new = record { max_length = usize_max; next_index = 0 }

unfoldable pub new_with_max_length : ℕ → LinesCodec
new_with_max_length max_length = record { max_length = max_length; next_index = 0 }

-- `LinesCodec::encode`: it cannot fail, and `reserve` does not change the content.
unfoldable pub encode : Bytes → Bytes → Bytes
encode item dst = (dst ++ item) ++ newline ∷ []

abbrev pub is_cr : Option ℕ → Bool
is_cr none = false
is_cr (some b) = b == carriage_return

-- The test on the maximum, as it stands twice in `decode`: `cr` tells whether the last of the `len`
-- bytes is a carriage return.
unfoldable pub exceeds : ℕ → ℕ → Bool → Bool
exceeds max len cr =
    not (max == usize_max) && (ltb max len && not ((len == min (max + 1) usize_max) && cr))

unfoldable pub try_into_utf8 : Bytes → Result (IoError (Unit {0})) (Option Bytes)
try_into_utf8 buf = if is_utf8 buf then ok (some buf) else err invalid_data

-- The last `match` of `decode`: a carriage return at the end of the line is removed.
unfoldable pub finish_line : ℕ → Bytes → Result (IoError (Unit {0})) (Option Bytes)
finish_line len buf = elim (last? buf) [
  | none ↦ ok (some [])
  | some b ↦ if b == carriage_return then try_into_utf8 (take (len - 1) buf) else try_into_utf8 buf
]

-- What a decoder returns: itself, the buffer and the result.
abbrev pub Decoded : Type 0
Decoded = LinesCodec × Bytes × Result (IoError (Unit {0})) (Option Bytes)

unfoldable pub no_delimiter : LinesCodec → Bytes → Decoded
no_delimiter c src =
    if exceeds c.max_length (length src) (is_cr (last? src))
    then (c, src, err invalid_data)
    else (record c { next_index = length src }, src, ok none)

unfoldable pub delimiter : LinesCodec → Bytes → ℕ → Decoded
delimiter c src len =
    if exceeds c.max_length len (is_cr (get_elem? src (len - 1)))
    then (c, src, err invalid_data)
    else (record c { next_index = 0 }, drop 1 (drop len src), finish_line len (take len src))

unfoldable pub scan_start : LinesCodec → Bytes → ℕ
scan_start c src = if ltb c.next_index (length src) then c.next_index else 0

-- The `None` arm of `decode_eof`: the rest of the buffer is a line, without its last carriage
-- return, which stays in the buffer.
unfoldable pub last_line : LinesCodec → Bytes → Decoded
last_line c src =
    let kept = if is_cr (last? src) then length src - 1 else length src in
    let buf = take kept src in
    (
      record c { next_index = 0 },
      drop kept src,
      if is_empty buf then ok none else try_into_utf8 buf,
    )

unfoldable pub at_eof : LinesCodec → Bytes → Result (IoError (Unit {0})) (Option Bytes) → Decoded
at_eof c src (err e) = (c, src, err e)
at_eof c src (ok (some frame)) = (c, src, ok (some frame))
at_eof c src (ok none) = if is_empty src then (c, src, ok none) else last_line c src

module _ (memchr : ℕ → Bytes → Option ℕ) where
  unfoldable pub find_newline : ℕ → Bytes → Option ℕ
  find_newline start src = Option.map (λ n. start + n) (memchr newline (drop start src))

  unfoldable pub decode : LinesCodec → Bytes → Decoded
  decode c src =
      if is_empty src
      then (record c { next_index = 0 }, src, ok none)
      else elim (find_newline (scan_start c src) src) [
        | none ↦ no_delimiter c src
        | some len ↦ delimiter c src len
      ]

  unfoldable pub decode_eof : LinesCodec → Bytes → Decoded
  decode_eof c src = let (c', src', r) = decode c src in at_eof c' src' r
