-- ===== src/Hex/Digits.antt =====
-- frontend/lib/utils.ts: the hash in base 16 tells the bytes of the digest.
use text.Mathlib.TextLemmas.{nil-append, cons-append}
use go_analyze.Prelude.{
  ℕ, ◌+◌, ◌-◌, ◌*◌, ◌/◌, ◌%◌, ◌<◌, Char, code, String, ◌≡◌, refl, ap, ◌∙◌, inl, inr, true, false,
  List, [], ◌∷◌, map, arith, ltb, leb, nat_eq, if◌then◌else◌, eq_of_nat_eq, Bool-cases, all_below,
  all_below_lem, All, ◌<+>◌,
}
use go_analyze.Hex.{hex_digit, base16, pad_start, hex_byte, concat, sha256_hex}

-- What a digit stands for.
unfoldable pub digit_value : Char → ℕ
digit_value c = if leb (code c) b'9' then code c - b'0' else code c - b'W'

-- The bytes of a text of two digits each.
abbrev pub bytes_of : String → List ℕ
bytes_of String.[] = []
bytes_of (String.◌∷◌ c String.[]) = []
bytes_of (String.◌∷◌ c (String.◌∷◌ d s)) = (digit_value c * 16 + digit_value d) ∷ bytes_of s

hex_digits_checked : all_below 16 (λ n. nat_eq (digit_value (hex_digit n)) n) ≡ true
unfolding digit_value hex_digit
hex_digits_checked = refl

digit_value-hex_digit : (n : ℕ) → n < 16 → digit_value (hex_digit n) ≡ n
digit_value-hex_digit n h =
    eq_of_nat_eq _ _
      (all_below_lem 16 n (λ n. nat_eq (digit_value (hex_digit n)) n) hex_digits_checked h)

abbrev pub two : Char → Char → String
two c d = String.◌∷◌ c (String.◌∷◌ d "")

zero_before : (s : String) → "0" <+> s ≡ String.◌∷◌ "0" s
zero_before s = cons-append "0" "" s ∙ ap (String.◌∷◌ "0") (nil-append s)

pub hex_byte_small : (b : ℕ) → ltb b 16 ≡ true → hex_byte b ≡ two (hex_digit 0) (hex_digit b)
unfolding base16 pad_start hex_digit
hex_byte_small b h = rw (base16, h) (zero_before (String.◌∷◌ (hex_digit b) ""))

pub hex_byte_large :
    (b : ℕ) → ltb b 16 ≡ false → hex_byte b ≡ two (hex_digit (b / 16)) (hex_digit (b % 16))
unfolding base16 pad_start
hex_byte_large b h = rw (base16, h) refl

bytes_of-two :
    (m n : ℕ) (s : String)
    → m < 16
    → n < 16
    → bytes_of (two (hex_digit m) (hex_digit n) <+> s) ≡ (m * 16 + n) ∷ bytes_of s
bytes_of-two m n s h k =
    rw (cons-append, cons-append, nil-append, digit_value-hex_digit m h, digit_value-hex_digit n k)

bytes_of-hex_byte : (b : ℕ) (s : String) → b < 256 → bytes_of (hex_byte b <+> s) ≡ b ∷ bytes_of s
bytes_of-hex_byte b s h =
    let zero_times : (0 * 16 + b) ∷ bytes_of s ≡ b ∷ bytes_of s =
      ap (λ n. n ∷ bytes_of s) (omega arith) in
    elim (Bool-cases (ltb b 16)) [
      | inl small ↦
          rw (hex_byte_small b small)
            (bytes_of-two 0 b s (ground arith) (ground arith) ∙ zero_times)
      | inr large ↦
          let e : b / 16 * 16 + b % 16 ≡ b = ground arith in
          rw
            (
              hex_byte_large b large,
              bytes_of-two (b / 16) (b % 16) s (ground arith) (ground arith),
              e,
            )
            refl
    ]

-- The hash that is sent tells the digest: the bytes come back from its text, for any bytes.
bytes_of-sha256_hex :
    (digest : List ℕ) → All (λ b. b < 256) digest → bytes_of (sha256_hex digest) ≡ digest
unfolding sha256_hex
bytes_of-sha256_hex [] h = refl
bytes_of-sha256_hex (b ∷ bs) (h, hs) =
    bytes_of-hex_byte b (concat (map hex_byte bs)) h ∙ ap (λ xs. b ∷ xs) (bytes_of-sha256_hex bs hs)
