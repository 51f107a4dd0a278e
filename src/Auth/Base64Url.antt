-- ===== src/Auth/Base64Url.antt =====
-- frontend/lib/auth.ts: `base64UrlEncode` and `randomString`. `btoa` is the browser's.
pub mod Alphabet
use go_analyze.Prelude.{
  ℕ, Char, code, String, List, ◌&&◌, map_text, take_text, is_empty, nat_eq, if◌then◌else◌,
}

-- `.replace(/\+/g, "-").replace(/\//g, "_")` on one character.
unfoldable pub url_char : Char → Char
url_char c = if nat_eq (code c) b'+' then "-" else if nat_eq (code c) b'/' then "_" else c

-- `.replace(/=+$/, "")`.
unfoldable pub strip_padding : String → String
strip_padding String.[] = ""
strip_padding (String.◌∷◌ c s) =
    let rest = strip_padding s in
    if nat_eq (code c) b'=' && is_empty rest then "" else String.◌∷◌ c rest

module _ (btoa : List ℕ → String) where
  unfoldable pub base64_url_encode : List ℕ → String
  base64_url_encode bytes = strip_padding (map_text url_char (btoa bytes))

  -- The bytes are those that `crypto.getRandomValues` filled in, `length` of them.
  unfoldable pub random_string : List ℕ → ℕ → String
  unfolding base64_url_encode
  random_string bytes length = take_text length (base64_url_encode bytes)
