-- ===== src/Identity/Hex.antt =====
-- encoding/hex: DecodeString, `none` where it returns an error.
use wevibe_chain.Common.{
  ℕ, ◌+◌, ◌-◌, ◌*◌, ◌≡◌, refl, Bool, ◌&&◌, Option, none, some, [], ◌∷◌, Text, codes, leb,
  if◌then◌else◌, length,
}

nibble : ℕ → Option ℕ
nibble c =
    if leb 48 c && leb c 57
    then some (c - 48)
    else (if leb 97 c && leb c 102
        then some (c - 87)
        else (if leb 65 c && leb c 70 then some (c - 55) else none))

hex_byte : Option ℕ → Option ℕ → Option Text → Option Text
hex_byte (some h) (some l) (some rest) = some ((h * 16 + l) ∷ rest)
hex_byte none l rest = none
hex_byte (some h) none rest = none
hex_byte (some h) (some l) none = none

unfoldable pub hex_decode : Text → Option Text
unfolding nibble hex_byte
hex_decode [] = some []
hex_decode (c ∷ []) = none
hex_decode (c ∷ (d ∷ s)) = hex_byte (nibble c) (nibble d) (hex_decode s)

-- len(bytes) == n, for what DecodeString returned without an error.
unfoldable pub has_length : ℕ → Option Text → Bool
has_length n none = Bool.false
has_length n (some s) = leb n (length s) && leb (length s) n

hex_sample : hex_decode (codes "0aF1") ≡ some (10 ∷ 241 ∷ [])
unfolding hex_decode
hex_sample = refl
