-- ===== src/Auth/Jwt/Segments.antt =====
-- frontend/lib/auth.ts: `decodeJwt` reads back what is encoded for a token.
use text.Mathlib.TextLemmas.{nil-append, cons-append}
use go_analyze.Auth.Jwt.Percent.{IsPercentDecoder, escaped_bytes-percent_text}
use go_analyze.Prelude.{
  Option, All, ◌<◌, ℕ, Char, code, String, ◌≡◌, refl, false, some, List, ◌∷◌, arith, nat_eq, ◌<+>◌,
  AllChars, split_text,
}
use go_analyze.Auth.Base64Url.{base64_url_encode}
use go_analyze.Auth.Base64Url.Alphabet.{
  IsUrlSafe, base64_url_encode-IsUrlSafe, standard-base64_url_encode, IsBtoa,
}
use go_analyze.Auth.Jwt.{second_part, percent_text, decode_jwt, JwtEnv}

-- A character that does not end a segment.
abbrev pub IsInside : Char → Type 0
IsInside c = nat_eq (code c) b'.' ≡ false

split_text-append :
    (s t : String)
    → AllChars IsInside s
    → split_text b'.' (s <+> String.◌∷◌ "." t) ≡ s ∷ split_text b'.' t
split_text-append String.[] t h = rw (nil-append) refl
split_text-append (String.◌∷◌ c s) t (p, h) = rw (cons-append, p, split_text-append s t h)

no_dot_of_safe : (s : String) → AllChars IsUrlSafe s → AllChars IsInside s
no_dot_of_safe String.[] h = tt
no_dot_of_safe (String.◌∷◌ c s) (p, h) = (ground arith, no_dot_of_safe s h)

-- Three segments, the middle one encoding some bytes.
abbrev pub token_of : (List ℕ → String) → String → List ℕ → String → String
token_of btoa header bytes signature =
    header <+> String.◌∷◌ "." (base64_url_encode btoa bytes <+> String.◌∷◌ "." signature)

module _ {User : Type 0} (env : JwtEnv User) (btoa : List ℕ → String) (b : IsBtoa btoa) where
  second_part-token_of :
      (header signature : String) (bytes : List ℕ)
      → AllChars IsInside header
      → second_part (split_text b'.' (token_of btoa header bytes signature))
        ≡ some (base64_url_encode btoa bytes)
  second_part-token_of header signature bytes h =
      rw
        (
          split_text-append header _ h,
          split_text-append (base64_url_encode btoa bytes) signature
              (no_dot_of_safe _ (base64_url_encode-IsUrlSafe btoa b bytes)),
        )
        refl

  -- A token whose middle segment encodes the bytes of a user is decoded to this user: where `btoa`
  -- gives characters of base64 and then padding, `atob` takes its output without the padding back to
  -- the bytes, which are below 256, `decodeURIComponent` reads a text of escapes (`%` and two digits in
  -- base 16 each) as the UTF-8 text of their bytes, and that text of these bytes is the user's JSON.
  -- The first segment has no dot; the last one is any text.
  pub decode_jwt-token_of :
      (utf8 : List ℕ → Option String) (header signature text : String) (bytes : List ℕ) (u : User)
      → IsPercentDecoder env.decode_uri_component utf8
      → AllChars IsInside header
      → All (λ b. b < 256) bytes
      → env.atob (b.body bytes) ≡ some bytes
      → utf8 bytes ≡ some text
      → env.parse text ≡ some u
      → decode_jwt env (token_of btoa header bytes signature) ≡ some u
  unfolding decode_jwt
  decode_jwt-token_of utf8 header signature text bytes u decodes h small back readable json =
      rw
        (
          decode_jwt,
          second_part-token_of header signature bytes h,
          standard-base64_url_encode btoa b bytes,
          back,
          decodes (percent_text bytes) bytes (escaped_bytes-percent_text bytes small),
          readable,
          json,
        )
        refl
