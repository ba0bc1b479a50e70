-- ===== src/Codec.antt =====
-- actix-codec: the codecs and the framed transport.
pub mod Utf8
pub mod Newline
pub mod Lines
pub mod Framed
pub mod LineStream
pub mod BytesCodec
mod Tests
