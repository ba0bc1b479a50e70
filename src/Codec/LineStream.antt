-- ===== src/Codec/LineStream.antt =====
-- `Framed` over `LinesCodec` (actix-codec/src/framed.rs, lines.rs): a stream of bytes read in pieces
-- of any size against the lines of the whole stream.
pub mod Steps
pub mod Tries
pub mod Polls
pub mod Whole
pub mod RoundTrip
use actix_net.Prelude.{
  is_empty, ℕ, ◌+◌, ◌<◌, ◌≡◌, Bool, true, false, List, [], ◌∷◌, ◌++◌, Option, none, some, length,
  ◌==◌, if◌then◌else◌, Result, ok, err, Poll, pending, ready, IoError, invalid_data,
}
use actix_net.Codec.Utf8.{Bytes, is_utf8}
use actix_net.Codec.Lines.{LinesCodec, usize_max, newline, decode, decode_eof}
use actix_net.Codec.Lines.Refinement.{strip_cr, IsScanned}
use actix_net.Codec.Framed.{Framed, Transport, Decoder, ReadEvent, not_ready, failed, filled}

abbrev pub LineResult : Type 0
LineResult = Result (IoError (Unit {0})) Bytes

unfoldable pub line_result : Bytes → LineResult
line_result bs = if is_utf8 bs then ok bs else err invalid_data

-- What stands behind the last newline is a line too, unless nothing is left of it.
unfoldable pub last_of : Bytes → List LineResult
last_of cur = if is_empty (strip_cr cur) then [] else line_result (strip_cr cur) ∷ []

-- The lines of a text, `cur` being the part of the current line that is already read.
unfoldable pub lines_of : Bytes → Bytes → List LineResult
lines_of cur [] = last_of cur
lines_of cur (b ∷ bs) = elim (b == newline) [
  | true ↦ line_result (strip_cr cur) ∷ lines_of [] bs
  | false ↦ lines_of (cur ++ b ∷ []) bs
]

unfoldable pub lines : Bytes → List LineResult
lines bs = lines_of [] bs

-- The bytes that a transport is still to deliver.
abbrev pub stream_of : List (ReadEvent (Unit {0})) → Bytes
stream_of [] = []
stream_of (not_ready ∷ es) = stream_of es
stream_of (failed e ∷ es) = stream_of es
stream_of (filled bs ∷ es) = bs ++ stream_of es

-- The transport delivers bytes, with any pauses, up to the end of the stream and does not fail.
-- After the end it is not asked again.
abbrev pub IsScript : Bool → List (ReadEvent (Unit {0})) → Type 0
IsScript true es = es ≡ []
IsScript false [] = ⊥
IsScript false (not_ready ∷ es) = IsScript false es
IsScript false (failed e ∷ es) = ⊥
IsScript false (filled [] ∷ es) = es ≡ []
IsScript false (filled (b ∷ bs) ∷ es) = IsScript false es

abbrev pub LineFramed : Type 0
LineFramed = Framed (Transport (Unit {0})) LinesCodec

-- A framed transport that reads lines with no maximum length, `es` being the answers to come.
pub record IsReading (f : LineFramed) (es : List (ReadEvent (Unit {0}))) : Type 0 where
  pub unlimited : f.codec.max_length ≡ usize_max
  pub scanned : IsScanned f.codec f.read_buf
  pub script : IsScript f.eof es
  pub live : f.eof ≡ true → f.readable ≡ true

-- The bytes that are still to be returned as lines, and what each poll makes smaller.
abbrev pub unread : LineFramed → List (ReadEvent (Unit {0})) → Bytes
unread f es = f.read_buf ++ stream_of es

abbrev pub measure : LineFramed → List (ReadEvent (Unit {0})) → ℕ
measure f es = length (unread f es) + length es

unfoldable pub lines_decoder :
    (ℕ → Bytes → Option ℕ) → Decoder LinesCodec Bytes (IoError (Unit {0}))
lines_decoder memchr = record { decode = decode memchr; decode_eof = decode_eof memchr }
