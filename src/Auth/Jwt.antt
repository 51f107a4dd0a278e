-- ===== src/Auth/Jwt.antt =====
-- frontend/lib/auth.ts: `decodeJwt`. `atob`, `decodeURIComponent` and `JSON.parse` are the browser's.
pub mod Segments
pub mod Percent
use go_analyze.Prelude.{
  ℕ, String, Option, none, some, List, [], ◌∷◌, map, ◌>>=◌, ◌<+>◌, map_text, split_text,
}
use go_analyze.Hex.{hex_byte, concat}
use go_analyze.Auth.Base64Url.Alphabet.{standard_char}

-- The browser's functions, `none` for an exception. `atob` gives the codes of its characters, all
-- below 256.
pub record JwtEnv (User : Type 0) : Type 0 where
  pub atob : String → Option (List ℕ)
  pub decode_uri_component : String → Option String
  pub parse : String → Option User

-- `[1]`.
abbrev pub second_part : List String → Option String
second_part [] = none
second_part (a ∷ []) = none
second_part (a ∷ b ∷ cs) = some b

-- Each character as `%` with two digits in base 16.
abbrev pub percent_byte : ℕ → String
percent_byte b = "%" <+> hex_byte b

unfoldable pub percent_text : List ℕ → String
percent_text codes = concat (map percent_byte codes)

-- `decodeJwt`; an exception, or a token without a second part, makes `null`.
unfoldable pub decode_jwt : {User : Type 0} → JwtEnv User → String → Option User
unfolding percent_text
decode_jwt env token = do
  payload ← second_part (split_text b'.' token)
  codes ← env.atob (map_text standard_char payload)
  json ← env.decode_uri_component (percent_text codes)
  env.parse json
