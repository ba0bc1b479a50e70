-- ===== src/Bytestring/Tests.antt =====
-- Byte strings at concrete inputs (bytestring/src/lib.rs).
use actix_net.Prelude.{◌≡◌, refl, ◌⊎◌, ◌++◌, ◌<◌, [], ◌∷◌, false, take, length}
use actix_net.Prelude.Panics.{done, panicked}
use actix_net.Codec.Utf8.{is_utf8}
use actix_net.Bytestring.{ByteString, IsText, split_at, deref}
use actix_net.Bytestring.Splits.{split_at_lem}

-- "aé".
abbrev accent : ByteString
accent = record { bytes = 97 ∷ 195 ∷ 169 ∷ [] }

accent-IsText : IsText accent.bytes
unfolding is_utf8
accent-IsText = refl

split_at_lem_example :
    ((split_at accent 1 ≡ panicked)
      × ((length accent.bytes < 1) ⊎ (is_utf8 (take 1 accent.bytes) ≡ false)))
    ⊎ ((first last : ByteString) × (split_at accent 1 ≡ done (first, last))
        × IsText first.bytes
        × IsText last.bytes
        × (length first.bytes ≡ 1)
        × (first.bytes ++ last.bytes ≡ accent.bytes))
split_at_lem_example = split_at_lem accent 1 accent-IsText

split_at_test : split_at accent 2 ≡ panicked
unfolding split_at deref
split_at_test = refl
