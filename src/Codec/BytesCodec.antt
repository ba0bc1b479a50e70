-- ===== src/Codec/BytesCodec.antt =====
-- actix-codec/src/bcodec.rs: bytes that pass through.
use actix_net.Prelude.{
  ◌≡◌, refl, ap, sym, ◌∙◌, List, [], ◌∷◌, ◌++◌, append_assoc, append-nil, Option, none, some,
}
use actix_net.Codec.Utf8.{Bytes}

-- `BytesCodec::encode`.
unfoldable pub encode_bytes : Bytes → Bytes → Bytes
encode_bytes item dst = dst ++ item

-- `BytesCodec::decode`: what is left, and the item.
unfoldable pub decode_bytes : Bytes → Bytes × Option Bytes
decode_bytes [] = ([], none)
decode_bytes (b ∷ src) = ([], some (b ∷ src))

abbrev pub encode_all : List Bytes → Bytes → Bytes
encode_all [] dst = dst
encode_all (item ∷ items) dst = encode_all items (encode_bytes item dst)

abbrev pub joined : List Bytes → Bytes
joined [] = []
joined (item ∷ items) = item ++ joined items

abbrev pub some_bytes : Bytes → Option Bytes
some_bytes [] = none
some_bytes (b ∷ bs) = some (b ∷ bs)

encode_all_lem : (items : List Bytes) (dst : Bytes) → encode_all items dst ≡ dst ++ joined items
unfolding encode_bytes
encode_all_lem [] dst = sym (append-nil dst)
encode_all_lem (item ∷ items) dst =
    encode_all_lem items (dst ++ item) ∙ append_assoc dst item (joined items)

decode_lem : (src : Bytes) → decode_bytes src ≡ ([], some_bytes src)
unfolding decode_bytes
decode_lem [] = refl
decode_lem (b ∷ src) = refl

-- Items that are written into an empty buffer are read back as one item, their bytes in order, and
-- as none when there is no byte; the buffer is empty then.
pub decode-encode_all :
    (items : List Bytes) → decode_bytes (encode_all items []) ≡ ([], some_bytes (joined items))
decode-encode_all items = ap decode_bytes (encode_all_lem items []) ∙ decode_lem (joined items)
