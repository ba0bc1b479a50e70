-- ===== src/Codec/Tests.antt =====
-- Runs of the codecs and of `Framed` at concrete inputs.
use actix_net.Prelude.{
  ◌≡◌, refl, false, List, [], ◌∷◌, some, ok, err, ready, invalid_data, arith, IoError,
}
use actix_net.Codec.Utf8.{Bytes, is_utf8}
use actix_net.Codec.Newline.{position, IsMemchr}
use actix_net.Codec.Lines.{LinesCodec, decode, encode, new_with_max_length}
use actix_net.Codec.Lines
use actix_net.Codec.Lines.Refinement.{decode_spec, decode-decode_spec}
use actix_net.Codec.Lines.Bounds.{IsBounded, decode-IsBounded}
use actix_net.Codec.Framed.{
  Framed, Transport, ReadEvent, WriteEvent, not_ready, filled, written, not_writable, hw,
}
use actix_net.Codec.Framed
use actix_net.Codec.Framed.Write.{write, flush}
use actix_net.Codec.Framed.Delivery.{outgoing, IsDelivered, flush-IsDelivered, flush_done}
use actix_net.Codec.LineStream
use actix_net.Codec.LineStream.{lines, IsReading}
use actix_net.Codec.LineStream.Whole.{poll_all, poll_all-stream}
use actix_net.Codec.LineStream.RoundTrip.{write_all-poll_all, write_all, lines_encoder, IsLine}

-- "ab\r\ncd"
abbrev two_lines : Bytes
two_lines = b'a' ∷ b'b' ∷ 13 ∷ 10 ∷ b'c' ∷ b'd' ∷ []

position-IsMemchr : IsMemchr position
position-IsMemchr b xs = refl

abbrev short : LinesCodec
short = record { max_length = 2; next_index = 0 }

decode_two_lines :
    decode position short two_lines
    ≡ (record { max_length = 2; next_index = 0 }, b'c' ∷ b'd' ∷ [], ok (some (b'a' ∷ b'b' ∷ [])))
unfolding decode Lines.find_newline Lines.scan_start Lines.delimiter Lines.finish_line
    Lines.try_into_utf8 Lines.exceeds is_utf8 position
decode_two_lines = refl

decode_too_long :
    (decode position (record { max_length = 1; next_index = 0 }) two_lines).2 ≡ err invalid_data
unfolding decode Lines.find_newline Lines.scan_start Lines.delimiter Lines.exceeds position
decode_too_long = refl

decode-decode_spec_example : decode position short two_lines ≡ decode_spec short two_lines
unfolding position
decode-decode_spec_example =
    decode-decode_spec position position-IsMemchr short two_lines (omega arith, refl)

decode-IsBounded_example : IsBounded 2 (decode position short two_lines)
unfolding position
decode-IsBounded_example =
    decode-IsBounded position position-IsMemchr short two_lines (omega arith, refl) (omega arith)

abbrev Io : Type 0
Io = Transport (Unit {0})

abbrev io_error : IoError (Unit {0}) → IoError (Unit {0})
io_error e = e

-- Four bytes wait, and the transport takes two at a time.
abbrev writer : Framed Io LinesCodec
writer = record {
  io = record {
    reads = [];
    writes = written 2 ∷ written 2 ∷ written 0 ∷ written 0 ∷ [];
    sent = [];
  };
  codec = short;
  eof = false;
  readable = false;
  read_buf = [];
  write_buf = b'a' ∷ b'b' ∷ b'c' ∷ 10 ∷ [];
}

abbrev steady : Framed Io LinesCodec
steady = record writer {
  io = record (writer.io) {
    writes = written 1 ∷ written 1 ∷ written 1 ∷ written 1 ∷ written 1 ∷ [];
  };
}

flush-writer : (flush io_error writer).0.io.sent ≡ b'a' ∷ b'b' ∷ b'c' ∷ 10 ∷ []
unfolding flush
flush-writer = refl

flush-IsDelivered_example : IsDelivered writer (flush io_error writer)
flush-IsDelivered_example = flush-IsDelivered io_error writer

flush_done_example : (flush io_error steady).1 ≡ ready (ok tt)
flush_done_example = flush_done io_error steady (omega arith) (omega arith)

-- The two lines in three pieces, with a pause.
abbrev pieces : List (ReadEvent (Unit {0}))
pieces =
    filled (b'a' ∷ b'b' ∷ 13 ∷ [])
    ∷ not_ready
    ∷ filled (10 ∷ b'c' ∷ [])
    ∷ filled (b'd' ∷ [])
    ∷ filled []
    ∷ []

poll_all-stream_example :
    poll_all position 20 (Framed.new (record { reads = pieces; writes = []; sent = [] }) Lines.new)
    ≡ some (lines two_lines)
poll_all-stream_example = poll_all-stream position position-IsMemchr pieces 20 refl (omega arith)

lines-two_lines : lines two_lines ≡ ok (b'a' ∷ b'b' ∷ []) ∷ ok (b'c' ∷ b'd' ∷ []) ∷ []
unfolding lines LineStream.lines_of LineStream.last_of LineStream.line_result is_utf8
    Lines.Refinement.strip_cr
lines-two_lines = refl

IsLine-a : IsLine (b'a' ∷ [])
unfolding position is_utf8
IsLine-a = record { no_newline = refl; no_cr = λ e. ground arith; valid = refl }

IsLine-empty : IsLine []
unfolding position is_utf8
IsLine-empty = record { no_newline = refl; no_cr = λ e. cc; valid = refl }

arrives :
    b'a' ∷ 10 ∷ 10 ∷ []
    ≡ outgoing (
        write_all
          (Framed.new (record { reads = []; writes = []; sent = [] }) Lines.new)
          ((b'a' ∷ []) ∷ [] ∷ []))
unfolding write_all write lines_encoder encode Framed.new
arrives = refl

write_all-poll_all_example :
    poll_all position 20 (
      Framed.new
        (record { reads = filled (b'a' ∷ 10 ∷ 10 ∷ []) ∷ filled [] ∷ []; writes = []; sent = [] })
        Lines.new)
    ≡ some (ok (b'a' ∷ []) ∷ ok [] ∷ [])
write_all-poll_all_example =
    write_all-poll_all position position-IsMemchr ((b'a' ∷ []) ∷ [] ∷ [])
      (filled (b'a' ∷ 10 ∷ 10 ∷ []) ∷ filled [] ∷ []) 20 (IsLine-a, (IsLine-empty, tt)) refl arrives
      (omega arith)
