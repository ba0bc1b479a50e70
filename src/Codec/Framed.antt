-- ===== src/Codec/Framed.antt =====
-- actix-codec/src/framed.rs: `Framed`. The codec is the interface `Decoder` or `Encoder` of
-- tokio-util. The transport is the list of the answers that it gives to the calls, in order; an
-- empty list answers `Pending`. `reserve` does not change the content of a buffer and is left out.
pub mod Read
pub mod Write
pub mod Delivery
use actix_net.Prelude.{
  ℕ, Bool, true, false, List, [], ◌∷◌, Option, length, leb, ltb, Result, IoError,
}
use actix_net.Codec.Utf8.{Bytes}

-- High-water mark.
abbrev pub hw : ℕ
hw = 8192

-- The trait `Decoder`: each call returns the codec and the buffer as it leaves them.
pub record Decoder (U Item Err : Type 0) : Type 0 where
  pub decode : U → Bytes → U × Bytes × Result Err (Option Item)
  pub decode_eof : U → Bytes → U × Bytes × Result Err (Option Item)

-- The trait `Encoder`.
pub record Encoder (U Item Err : Type 0) : Type 0 where
  pub encode : U → Item → Bytes → U × Bytes × Result Err (Unit {0})

-- An answer of `poll_read_buf`: the bytes that it appends, none of them at the end of the stream.
pub data ReadEvent (O : Type 0) : Type 0 where
  not_ready : ReadEvent O
  failed : IoError O → ReadEvent O
  filled : Bytes → ReadEvent O

-- An answer of `poll_write`, `poll_flush` or `poll_shutdown`. The number is what `poll_write` took,
-- by its contract at most what it was given; the other two have none.
pub data WriteEvent (O : Type 0) : Type 0 where
  not_writable : WriteEvent O
  refused : IoError O → WriteEvent O
  written : ℕ → WriteEvent O

-- `sent` is what `poll_write` has taken so far.
pub record Transport (O : Type 0) : Type 0 where
  pub reads : List (ReadEvent O)
  pub writes : List (WriteEvent O)
  pub sent : Bytes

pub record Framed (T U : Type 0) : Type 0 where
  pub io : T
  pub codec : U
  -- `Flags::EOF` and `Flags::READABLE`
  pub eof : Bool
  pub readable : Bool
  pub read_buf : Bytes
  pub write_buf : Bytes

-- `FramedParts` has the fields of `Framed`.
pub record FramedParts (T U : Type 0) : Type 0 where
  pub io : T
  pub codec : U
  pub read_buf : Bytes
  pub write_buf : Bytes
  pub eof : Bool
  pub readable : Bool

module _ {T U : Type 0} where
  unfoldable pub new : T → U → Framed T U
  new io codec = record {
    io = io;
    codec = codec;
    eof = false;
    readable = false;
    read_buf = [];
    write_buf = [];
  }

  unfoldable pub is_write_buf_full : Framed T U → Bool
  is_write_buf_full f = leb hw (length f.write_buf)

  unfoldable pub is_write_ready : Framed T U → Bool
  is_write_ready f = ltb (length f.write_buf) hw

  unfoldable pub into_parts : Framed T U → FramedParts T U
  into_parts f = record {
    io = f.io;
    codec = f.codec;
    read_buf = f.read_buf;
    write_buf = f.write_buf;
    eof = f.eof;
    readable = f.readable;
  }

  unfoldable pub from_parts : FramedParts T U → Framed T U
  from_parts p = record {
    io = p.io;
    codec = p.codec;
    eof = p.eof;
    readable = p.readable;
    read_buf = p.read_buf;
    write_buf = p.write_buf;
  }

-- `into_map_codec`; `replace_codec codec` is the same with a constant function.
unfoldable pub into_map_codec : {T U V : Type 0} → (U → V) → Framed T U → Framed T V
into_map_codec g f = record {
  io = f.io;
  codec = g f.codec;
  eof = f.eof;
  readable = f.readable;
  read_buf = f.read_buf;
  write_buf = f.write_buf;
}

unfoldable pub into_map_io : {T U V : Type 0} → (T → V) → Framed T U → Framed V U
into_map_io g f = record {
  io = g f.io;
  codec = f.codec;
  eof = f.eof;
  readable = f.readable;
  read_buf = f.read_buf;
  write_buf = f.write_buf;
}
