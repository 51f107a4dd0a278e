-- ===== src/Auth/Jwt/Percent.antt =====
-- frontend/lib/auth.ts: the escapes that `decodeJwt` hands to `decodeURIComponent`, and how that
-- function reads them: each is a `%` with two digits in base 16, and the bytes are UTF-8.
use text.Mathlib.TextLemmas.{nil-append, cons-append}
use go_analyze.Prelude.{
  ℕ, ◌+◌, ◌-◌, ◌*◌, ◌/◌, ◌%◌, ◌<◌, Char, code, String, ◌≡◌, refl, ap, ◌∙◌, inl, inr, true, ◌&&◌,
  Option, none, some, List, [], ◌∷◌, map, arith, leb, ltb, nat_eq, if◌then◌else◌, eq_of_nat_eq,
  Bool-cases, all_below, all_below_lem, All, ◌<+>◌, is_some, coalesce,
}
use go_analyze.Hex.{hex_digit, concat}
use go_analyze.Hex.Digits.{two, hex_byte_small, hex_byte_large}
use go_analyze.Auth.Jwt.{percent_byte, percent_text}

-- A digit in base 16, in either case.
abbrev digit_of : Char → Option ℕ
digit_of c =
    if leb b'0' (code c) && leb (code c) b'9'
    then some (code c - b'0')
    else if leb b'A' (code c) && leb (code c) b'F'
    then some (code c - b'7')
    else if leb b'a' (code c) && leb (code c) b'f'
    then some (code c - b'W')
    else none

abbrev with_byte : Option ℕ → Option ℕ → Option (List ℕ) → Option (List ℕ)
with_byte (some m) (some n) (some bs) = some ((m * 16 + n) ∷ bs)
with_byte _ _ _ = none

-- The bytes of a text that consists of escapes, `none` for any other text.
abbrev pub escaped_bytes : String → Option (List ℕ)
escaped_bytes String.[] = some []
escaped_bytes (String.◌∷◌ p String.[]) = none
escaped_bytes (String.◌∷◌ p (String.◌∷◌ c String.[])) = none
escaped_bytes (String.◌∷◌ p (String.◌∷◌ c (String.◌∷◌ d s))) =
    let rest = with_byte (digit_of c) (digit_of d) (escaped_bytes s) in
    if nat_eq (code p) b'%' then rest else none

digits_checked :
    all_below 16
      (λ n. is_some (digit_of (hex_digit n)) && nat_eq (coalesce (digit_of (hex_digit n)) 0) n)
    ≡ true
unfolding hex_digit
digits_checked = refl

known : (o : Option ℕ) (n : ℕ) → (is_some o && nat_eq (coalesce o 0) n) ≡ true → o ≡ some n
known none n h = ground arith
known (some m) n h = ap some (eq_of_nat_eq m n h)

digit_of-hex_digit : (n : ℕ) → n < 16 → digit_of (hex_digit n) ≡ some n
digit_of-hex_digit n h = known (digit_of (hex_digit n)) n (
    all_below_lem 16 n
      (λ n. is_some (digit_of (hex_digit n)) && nat_eq (coalesce (digit_of (hex_digit n)) 0) n)
      digits_checked h)

escaped_bytes-two :
    (m n : ℕ) (s : String) (bs : List ℕ)
    → m < 16
    → n < 16
    → escaped_bytes s ≡ some bs
    → escaped_bytes (("%" <+> two (hex_digit m) (hex_digit n)) <+> s) ≡ some ((m * 16 + n) ∷ bs)
escaped_bytes-two m n s bs h k rest =
    rw
      (
        cons-append,
        cons-append,
        nil-append,
        cons-append,
        cons-append,
        nil-append,
        digit_of-hex_digit m h,
        digit_of-hex_digit n k,
        rest,
      )
      refl

escaped_bytes-percent_byte :
    (b : ℕ) (s : String) (bs : List ℕ)
    → b < 256
    → escaped_bytes s ≡ some bs
    → escaped_bytes (percent_byte b <+> s) ≡ some (b ∷ bs)
escaped_bytes-percent_byte b s bs h rest = elim (Bool-cases (ltb b 16)) [
  | inl small ↦ rw (hex_byte_small b small) (
      escaped_bytes-two 0 b s bs (ground arith) (ground arith) rest
      ∙ ap (λ n. some (n ∷ bs)) (omega arith))
  | inr large ↦
      let e : b / 16 * 16 + b % 16 ≡ b = ground arith in
      rw (hex_byte_large b large) (
        escaped_bytes-two (b / 16) (b % 16) s bs (ground arith) (ground arith) rest
        ∙ ap (λ n. some (n ∷ bs)) e)
]

-- The escapes tell the bytes.
pub escaped_bytes-percent_text :
    (bytes : List ℕ) → All (λ b. b < 256) bytes → escaped_bytes (percent_text bytes) ≡ some bytes
unfolding percent_text
escaped_bytes-percent_text [] h = refl
escaped_bytes-percent_text (b ∷ bs) (h, hs) =
    escaped_bytes-percent_byte b (concat (map percent_byte bs)) bs h
      (escaped_bytes-percent_text bs hs)

-- `decodeURIComponent` on a text that consists of escapes: their bytes are read as UTF-8, with `none`
-- for the exception on bytes that are not.
abbrev pub IsPercentDecoder : (String → Option String) → (List ℕ → Option String) → Type 0
IsPercentDecoder decode utf8 =
    (t : String) (bytes : List ℕ) → escaped_bytes t ≡ some bytes → decode t ≡ utf8 bytes
