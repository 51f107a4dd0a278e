-- ===== src/Auth/Base64Url/Alphabet.antt =====
-- frontend/lib/auth.ts: the alphabet of `base64UrlEncode`, and what `decodeJwt` makes of it.
use text.Mathlib.TextEquality.{Char-path}
use mathlib.Core.Path.{ap₂}
use text.Mathlib.TextLemmas.{nil-append, cons-append}
use go_analyze.Prelude.{
  ℕ, ◌≤◌, Char, code, String, ◌≡◌, refl, ◌≢◌, ◌⊎◌, inl, inr, false, List, arith, nat_eq,
  if◌then◌else◌, eq_of_nat_eq, ne_of_nat_eq, Bool-cases, ◌<+>◌, map_text, AllChars, map_text-append,
}
use go_analyze.Auth.Base64Url.{url_char, strip_padding, base64_url_encode}

-- The letters and digits.
abbrev pub IsAlnum : Char → Type 0
IsAlnum c =
    ((b'A' ≤ code c) × (code c ≤ b'Z'))
    ⊎ ((b'a' ≤ code c) × (code c ≤ b'z'))
    ⊎ ((b'0' ≤ code c) × (code c ≤ b'9'))

-- A character of base64, the padding aside.
abbrev pub IsBase64 : Char → Type 0
IsBase64 c = IsAlnum c ⊎ (code c ≡ b'+') ⊎ (code c ≡ b'/')

-- A character that needs no escape in a URL and that PKCE allows.
abbrev pub IsUrlSafe : Char → Type 0
IsUrlSafe c = IsAlnum c ⊎ (code c ≡ b'-') ⊎ (code c ≡ b'_')

abbrev pub IsPadding : Char → Type 0
IsPadding c = code c ≡ b'='

-- What is documented of `btoa`: characters of base64, and then the padding.
pub record IsBtoa (btoa : List ℕ → String) : Type 0 where
  pub body : List ℕ → String
  pub padding : List ℕ → String
  pub split : (bytes : List ℕ) → btoa bytes ≡ body bytes <+> padding bytes
  pub body_base64 : (bytes : List ℕ) → AllChars IsBase64 (body bytes)
  pub padding_padding : (bytes : List ℕ) → AllChars IsPadding (padding bytes)

-- What `decodeJwt` does to a character: `.replace(/-/g, "+").replace(/_/g, "/")`.
unfoldable pub standard_char : Char → Char
standard_char c = if nat_eq (code c) b'-' then "+" else if nat_eq (code c) b'_' then "/" else c

abbrev UrlCase : Char → Type 0
UrlCase c =
    ((c ≡ "+") × (url_char c ≡ "-"))
    ⊎ ((c ≡ "/") × (url_char c ≡ "_"))
    ⊎ (((code c ≢ b'+') × (code c ≢ b'/')) × (url_char c ≡ c))

url_char-cases : (c : Char) → UrlCase c
unfolding url_char
url_char-cases c = elim (Bool-cases (nat_eq (code c) b'+')) [
  | inl p ↦ inl (Char-path c "+" (eq_of_nat_eq _ _ p), rw p)
  | inr p ↦ elim (Bool-cases (nat_eq (code c) b'/')) [
    | inl q ↦ inr (inl (Char-path c "/" (eq_of_nat_eq _ _ q), rw (p, q)))
    | inr q ↦ inr (inr ((ne_of_nat_eq _ _ p, ne_of_nat_eq _ _ q), rw (p, q)))
  ]
]

url_char-IsUrlSafe : (c : Char) → IsBase64 c → IsUrlSafe (url_char c)
url_char-IsUrlSafe c h = elim (url_char-cases c) [
  | inl (_, e) ↦ rw e (inr (inl refl))
  | inr (inl (_, e)) ↦ rw e (inr (inr refl))
  | inr (inr (n, e)) ↦ rw e (ground arith)
]

standard_char_of_alnum : (c : Char) → IsAlnum c → standard_char c ≡ c
unfolding standard_char
standard_char_of_alnum c h =
    let p : nat_eq (code c) b'-' ≡ false = ground arith in
    let q : nat_eq (code c) b'_' ≡ false = ground arith in rw (p, q)

standard_char-url_char : (c : Char) → IsBase64 c → standard_char (url_char c) ≡ c
standard_char-url_char c h = elim (url_char-cases c) [
  | inl (d, e) ↦ rw (e, d) (unfold standard_char in refl)
  | inr (inl (d, e)) ↦ rw (e, d) (unfold standard_char in refl)
  | inr (inr (n, e)) ↦ rw e (standard_char_of_alnum c (ground arith))
]

map_url-IsUrlSafe : (s : String) → AllChars IsBase64 s → AllChars IsUrlSafe (map_text url_char s)
map_url-IsUrlSafe String.[] h = tt
map_url-IsUrlSafe (String.◌∷◌ c s) (p, h) = (url_char-IsUrlSafe c p, map_url-IsUrlSafe s h)

map_standard-map_url :
    (s : String) → AllChars IsBase64 s → map_text standard_char (map_text url_char s) ≡ s
map_standard-map_url String.[] h = refl
map_standard-map_url (String.◌∷◌ c s) (p, h) =
    ap₂ String.◌∷◌ (standard_char-url_char c p) (map_standard-map_url s h)

-- The padding is left alone, and then stripped.
strip_padding-padding :
    (s : String) → AllChars IsPadding s → strip_padding (map_text url_char s) ≡ ""
unfolding strip_padding url_char
strip_padding-padding String.[] h = refl
strip_padding-padding (String.◌∷◌ c s) (p, h) = rw (Char-path c "=" p, strip_padding-padding s h)

not_padding : (c : Char) → IsUrlSafe c → nat_eq (code c) b'=' ≡ false
not_padding c h = ground arith

strip_padding-append :
    (s t : String) → AllChars IsUrlSafe s → strip_padding t ≡ "" → strip_padding (s <+> t) ≡ s
unfolding strip_padding
strip_padding-append String.[] t h e = rw nil-append e
strip_padding-append (String.◌∷◌ c s) t (p, h) e =
    rw (cons-append, strip_padding, not_padding c p, strip_padding-append s t h e)

module _ (btoa : List ℕ → String) (b : IsBtoa btoa) (bytes : List ℕ) where
  -- The encoding is the body with two characters exchanged.
  base64_url_encode-body : base64_url_encode btoa bytes ≡ map_text url_char (b.body bytes)
  unfolding base64_url_encode
  base64_url_encode-body =
      rw (b.split bytes, map_text-append url_char (b.body bytes) (b.padding bytes))
        (strip_padding-append _ _ (map_url-IsUrlSafe _ (b.body_base64 bytes))
          (strip_padding-padding _ (b.padding_padding bytes)))

  -- Where `btoa` gives characters of base64 and then padding, the encoding of any bytes consists of
  -- letters, digits, `-` and `_`: no `+`, no `/` and no `=`.
  pub base64_url_encode-IsUrlSafe : AllChars IsUrlSafe (base64_url_encode btoa bytes)
  base64_url_encode-IsUrlSafe =
      rw base64_url_encode-body (map_url-IsUrlSafe _ (b.body_base64 bytes))

  -- Under the same condition, the two replacements that `decodeJwt` makes on a segment undo those
  -- of the encoding: what comes back is the output of `btoa` without its padding.
  pub standard-base64_url_encode :
      map_text standard_char (base64_url_encode btoa bytes) ≡ b.body bytes
  standard-base64_url_encode =
      rw base64_url_encode-body (map_standard-map_url _ (b.body_base64 bytes))
