-- ===== src/Codec/Utf8.antt =====
-- `String::from_utf8` of the standard library, which actix-codec and bytestring call. A text is the
-- list of its bytes; the check reads the bytes from left to right by the table of well-formed
-- sequences that the documentation of `str` refers to.
pub mod Boundaries
use actix_net.Prelude.{
  ℕ, ◌≡◌, refl, Bool, true, false, ◌&&◌, List, [], ◌∷◌, ◌++◌, ltb, leb, ◌==◌, if◌then◌else◌,
}

abbrev pub Bytes : Type 0
Bytes = List ℕ

-- What may follow: a new character, or the rest of one that has begun.
pub data Utf8State : Type 0 where
  boundary one two three after_e0 after_ed after_f0 after_f4 invalid : Utf8State

abbrev within : ℕ → ℕ → ℕ → Bool
within lo hi b = leb lo b && leb b hi

lead : ℕ → Utf8State
lead b =
    if ltb b 0x80
    then boundary
    else if within 0xc2 0xdf b
    then one
    else if b == 0xe0
    then after_e0
    else if b == 0xed
    then after_ed
    else if within 0xe1 0xef b
    then two
    else if b == 0xf0
    then after_f0
    else if within 0xf1 0xf3 b
    then three
    else if b == 0xf4
    then after_f4
    else invalid

pub utf8_step : Utf8State → ℕ → Utf8State
unfolding lead
utf8_step boundary b = lead b
utf8_step one b = if within 0x80 0xbf b then boundary else invalid
utf8_step two b = if within 0x80 0xbf b then one else invalid
utf8_step three b = if within 0x80 0xbf b then two else invalid
utf8_step after_e0 b = if within 0xa0 0xbf b then one else invalid
utf8_step after_ed b = if within 0x80 0x9f b then one else invalid
utf8_step after_f0 b = if within 0x90 0xbf b then two else invalid
utf8_step after_f4 b = if within 0x80 0x8f b then two else invalid
utf8_step invalid b = invalid

pub utf8_run : Utf8State → Bytes → Utf8State
utf8_run s [] = s
utf8_run s (b ∷ bs) = utf8_run (utf8_step s b) bs

abbrev pub is_boundary : Utf8State → Bool
is_boundary boundary = true
is_boundary _ = false

unfoldable pub is_utf8 : Bytes → Bool
unfolding utf8_run utf8_step
is_utf8 bs = is_boundary (utf8_run boundary bs)

pub utf8_run-append :
    (s : Utf8State) (xs ys : Bytes) → utf8_run s (xs ++ ys) ≡ utf8_run (utf8_run s xs) ys
unfolding utf8_run
utf8_run-append s [] ys = refl
utf8_run-append s (x ∷ xs) ys = utf8_run-append (utf8_step s x) xs ys
