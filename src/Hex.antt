-- ===== src/Hex.antt =====
-- frontend/lib/utils.ts: `sha256Hex`, and the text of a byte in base 16, which frontend/lib/auth.ts
-- writes in the same way.
pub mod Digits
use go_analyze.Prelude.{
  ℕ, zero, suc, ◌/◌, ◌%◌, Char, String, List, [], ◌∷◌, map, ltb, nat_eq, if◌then◌else◌, ◌<+>◌,
  text_length,
}

-- The character at a place, and a last one beyond the end.
abbrev char_at : ℕ → String → Char
char_at n String.[] = "0"
char_at zero (String.◌∷◌ c s) = c
char_at (suc n) (String.◌∷◌ c s) = char_at n s

-- A digit of `toString(16)`, for numbers below 16.
unfoldable pub hex_digit : ℕ → Char
hex_digit n = char_at n "0123456789abcdef"

-- `b.toString(16)` for a byte.
unfoldable pub base16 : ℕ → String
base16 b =
    if ltb b 16
    then String.◌∷◌ (hex_digit b) ""
    else String.◌∷◌ (hex_digit (b / 16)) (String.◌∷◌ (hex_digit (b % 16)) "")

-- `.padStart(2, "0")` on a text of one character or two.
unfoldable pub pad_start : String → String
pad_start s = if nat_eq (text_length s) 1 then "0" <+> s else s

abbrev pub hex_byte : ℕ → String
hex_byte b = pad_start (base16 b)

abbrev pub concat : List String → String
concat [] = ""
concat (s ∷ ss) = s <+> concat ss

-- `sha256Hex`, for the bytes of the digest.
unfoldable pub sha256_hex : List ℕ → String
sha256_hex digest = concat (map hex_byte digest)
