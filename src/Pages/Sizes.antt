-- ===== src/Pages/Sizes.antt =====
-- frontend/lib/utils.ts: `formatBytes` and `formatDateTime`.
use native.Mathlib.Nat.{pow-le-pow_right}
use go_analyze.Prelude.{
  ℕ, zero, suc, ◌*◌, ◌^◌, ◌+◌, ◌/◌, ◌%◌, ◌≤◌, ◌<◌, String, ◌≡◌, refl, inl, inr, false, Option, List,
  [], ◌∷◌, arith, leb, nat_eq, if◌then◌else◌, leb→le, Bool-cases, coalesce, is_truthy, ◌<+>◌,
}

-- `Math.floor(Math.log(bytes) / Math.log(1024))`, and `String` on whole numbers.
pub record NumberOps : Type 0 where
  pub log_1024 : ℕ → ℕ
  pub print : ℕ → String

-- `(a / b).toFixed(1)`: the whole number of tenths nearest to the quotient, the larger one of two. The
-- quotient by a power of 2 is exact below 2 ^ 53.
unfoldable pub tenths : ℕ → ℕ → ℕ
tenths a b = (20 * a + b) / (2 * b)

abbrev pub decimal : (ℕ → String) → ℕ → String
decimal print n = print (n / 10) <+> ("." <+> print (n % 10))

unfoldable pub to_fixed : (ℕ → String) → ℕ → ℕ → String
unfolding tenths
to_fixed print a b = decimal print (tenths a b)

abbrev pub size_units : List String
size_units = "B" ∷ "KB" ∷ "MB" ∷ "GB" ∷ []

-- `units[i]` in a text: "undefined" past the end.
abbrev pub unit_at : ℕ → List String → String
unit_at i [] = "undefined"
unit_at zero (u ∷ us) = u
unit_at (suc i) (u ∷ us) = unit_at i us

unfoldable pub format_bytes : NumberOps → ℕ → String
unfolding to_fixed
format_bytes ops bytes =
    let i = ops.log_1024 bytes in
    if nat_eq bytes 0
    then "0 B"
    else to_fixed ops.print bytes (1024 ^ i) <+> (" " <+> unit_at i size_units)

-- `format` is `Intl.DateTimeFormat("en-CA", …).format(new Date(iso))`, with `none` for the exception
-- on a date that is not valid.
unfoldable pub format_date_time : (String → Option String) → Option String → String
format_date_time format iso =
    let text = coalesce iso "" in if is_truthy iso then coalesce (format text) text else "—"

-- The logarithm is not rounded across a power of 1024.
pub record IsLog (ops : NumberOps) (bytes : ℕ) : Type 0 where
  pub below : 1024 ^ ops.log_1024 bytes ≤ bytes
  pub above : bytes < 1024 ^ suc (ops.log_1024 bytes)

-- What is shown of a size: a number of tenths and a unit. The number is the nearest one to the quotient
-- by the scale of that unit, from 1.0 to 1024.0, and 1024.0 exactly for the last sizes below the next
-- unit, by the twentieth part of the scale.
pub record IsShownAs (ops : NumberOps) (bytes scale : ℕ) (unit : String) : Type 0 where
  pub number : ℕ
  pub shown : format_bytes ops bytes ≡ decimal ops.print number <+> (" " <+> unit)
  pub at_least_one : 10 ≤ number
  pub at_most_next : number ≤ 10240
  pub near_below : 20 * bytes ≤ 2 * number * scale + scale
  pub near_above : 2 * number * scale ≤ 20 * bytes + scale
  pub next_unit : 20479 * scale ≤ 20 * bytes → number ≡ 10240
  pub this_unit : 20 * bytes < 20479 * scale → number < 10240

power_le : (i j : ℕ) → i ≤ j → 1024 ^ i ≤ 1024 ^ j
power_le i j h = pow-le-pow_right (omega arith) h

unit_at_missing : (i : ℕ) → 4 ≤ i → unit_at i size_units ≡ "undefined"
unit_at_missing zero h = ground arith
unit_at_missing (suc zero) h = ground arith
unit_at_missing (suc (suc zero)) h = ground arith
unit_at_missing (suc (suc (suc zero))) h = ground arith
unit_at_missing (suc (suc (suc (suc i)))) h = refl

module _ (ops : NumberOps) (bytes : ℕ) (exact : IsLog ops bytes) where
  log_at_least : (j : ℕ) → 1024 ^ j ≤ bytes → j ≤ ops.log_1024 bytes
  log_at_least j h = elim (Bool-cases (leb j (ops.log_1024 bytes))) [
    | inl le ↦ leb→le _ _ le
    | inr lt ↦ omega (arith, h, exact.above, power_le (suc (ops.log_1024 bytes)) j (ground arith))
  ]

  log_at_most : (j : ℕ) → bytes < 1024 ^ suc j → ops.log_1024 bytes ≤ j
  log_at_most j h = elim (Bool-cases (leb (ops.log_1024 bytes) j)) [
    | inl le ↦ leb→le _ _ le
    | inr lt ↦ omega (arith, h, exact.below, power_le (suc j) (ops.log_1024 bytes) (ground arith))
  ]

  -- The rounding, for a scale whose size is known.
  IsRounded : ℕ → Type 0
  IsRounded scale =
      (10 ≤ tenths bytes scale)
      × (tenths bytes scale ≤ 10240)
      × (20 * bytes ≤ 2 * tenths bytes scale * scale + scale)
      × (2 * tenths bytes scale * scale ≤ 20 * bytes + scale)
      × (20479 * scale ≤ 20 * bytes → tenths bytes scale ≡ 10240)
      × (20 * bytes < 20479 * scale → tenths bytes scale < 10240)

  shown_scaled :
      (j : ℕ)
      → 1 ≤ bytes
      → 1024 ^ j ≤ bytes
      → bytes < 1024 ^ suc j
      → IsRounded (1024 ^ j)
      → IsShownAs ops bytes (1024 ^ j) (unit_at j size_units)
  unfolding format_bytes to_fixed IsRounded
  shown_scaled j some_bytes lo hi (one, next, below, above, last, before) =
      let same : ops.log_1024 bytes ≡ j = omega (arith, log_at_least j lo, log_at_most j hi) in
      let full : nat_eq bytes 0 ≡ false = ground arith in
      record {
        number = tenths bytes (1024 ^ j);
        shown = rw (full, same) refl;
        at_least_one = one;
        at_most_next = next;
        near_below = below;
        near_above = above;
        next_unit = last;
        this_unit = before;
      }

  bytes-IsRounded : 1 ≤ bytes → bytes < 1024 → IsRounded 1
  unfolding tenths IsRounded
  bytes-IsRounded lo hi = omega arith

  kilobytes-IsRounded : 1024 ≤ bytes → bytes < 1048576 → IsRounded 1024
  unfolding tenths IsRounded
  kilobytes-IsRounded lo hi = omega arith

  megabytes-IsRounded : 1048576 ≤ bytes → bytes < 1073741824 → IsRounded 1048576
  unfolding tenths IsRounded
  megabytes-IsRounded lo hi = omega arith

  gigabytes-IsRounded : 1073741824 ≤ bytes → bytes < 1099511627776 → IsRounded 1073741824
  unfolding tenths IsRounded
  gigabytes-IsRounded lo hi = omega arith

  -- A size that is not 0, for which the logarithm is exact, is shown in bytes, KB, MB or GB, whichever
  -- fits, as the number of tenths that is nearest to it in that unit: at least 1.0 and below 1024.0,
  -- but for the last sizes before the next unit, which are shown as 1024.0; from 1024 GB on the unit
  -- reads "undefined".
  pub format_bytes-unit :
      1 ≤ bytes
      → (bytes < 1024 → IsShownAs ops bytes 1 "B")
        × (1024 ≤ bytes → bytes < 1048576 → IsShownAs ops bytes 1024 "KB")
        × (1048576 ≤ bytes → bytes < 1073741824 → IsShownAs ops bytes 1048576 "MB")
        × (1073741824 ≤ bytes → bytes < 1099511627776 → IsShownAs ops bytes 1073741824 "GB")
        × (1099511627776 ≤ bytes
            → (n : String) × (format_bytes ops bytes ≡ n <+> (" " <+> "undefined")))
  unfolding format_bytes
  format_bytes-unit some_bytes = (
    λ hi. shown_scaled 0 some_bytes some_bytes hi (bytes-IsRounded some_bytes hi),
    λ lo hi. shown_scaled 1 some_bytes lo hi (kilobytes-IsRounded lo hi),
    λ lo hi. shown_scaled 2 some_bytes lo hi (megabytes-IsRounded lo hi),
    λ lo hi. shown_scaled 3 some_bytes lo hi (gigabytes-IsRounded lo hi),
    λ lo.
        let full : nat_eq bytes 0 ≡ false = ground arith in
        (
          to_fixed ops.print bytes (1024 ^ ops.log_1024 bytes),
          rw (full, unit_at_missing (ops.log_1024 bytes) (log_at_least 4 lo)) refl,
        ),
  )
