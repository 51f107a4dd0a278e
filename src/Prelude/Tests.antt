-- ===== src/Prelude/Tests.antt =====
-- Boolean tests on the native numbers, the conditional, and the source's `||` and `??` on values
-- that may be absent.
use Prim.Native.Nat.{ℕ, zero, suc, ◌≤◌, ◌<◌, compare, Ordering}
use Prim.Native.String.{String}
use mathlib.Core.Path.{◌≡◌, refl}
use mathlib.Core.Logic.{◌⊎◌, inl, inr, ◌≢◌}
use mathlib.Core.Bool.{Bool, true, false, ◌&&◌}
use mathlib.Core.Option.{Option, none, some}
use native.Mathlib.Omega.{arith}
use text.Mathlib.Text.{◌==◌ as str_eq}
use text.Mathlib.TextEquality.{eq_iff}

abbrev pub ltb : ℕ → ℕ → Bool
ltb a b = elim (compare a b) [ Ordering.lt ↦ true | _ ↦ false ]

abbrev pub leb : ℕ → ℕ → Bool
leb a b = elim (compare a b) [ Ordering.gt ↦ false | _ ↦ true ]

abbrev pub nat_eq : ℕ → ℕ → Bool
nat_eq a b = elim (compare a b) [ Ordering.eq ↦ true | _ ↦ false ]

-- `===` on texts.
infix 50 ◌==◌
abbrev pub ◌==◌ : String → String → Bool
s == t = str_eq s t

infix 1 if◌then◌else◌
abbrev pub if◌then◌else◌ {ℓ} : {A : Type ℓ} → Bool → A → A → A
if true then x else y = x
if false then x else y = y

pub leb→le : (a b : ℕ) → leb a b ≡ true → a ≤ b
leb→le a b h = ground arith

pub ltb→lt : (a b : ℕ) → ltb a b ≡ true → a < b
ltb→lt a b h = ground arith

pub eq_of_nat_eq : (a b : ℕ) → nat_eq a b ≡ true → a ≡ b
eq_of_nat_eq a b h = ground arith

pub ne_of_nat_eq : (a b : ℕ) → nat_eq a b ≡ false → a ≢ b
ne_of_nat_eq a b h = ground arith

pub Bool-cases : (b : Bool) → (b ≡ true) ⊎ (b ≡ false)
Bool-cases true = inl refl
Bool-cases false = inr refl

module _ {ℓ} {A : Type ℓ} where
  pub Option-cases : (o : Option A) → (o ≡ none) ⊎ ((a : A) × (o ≡ some a))
  Option-cases none = inl refl
  Option-cases (some a) = inr (a, refl)

  -- `o ?? d`.
  abbrev pub coalesce : Option A → A → A
  coalesce none d = d
  coalesce (some a) d = a

  -- A value that is `null`, `undefined` or false, for types with no other false value.
  abbrev pub is_some : Option A → Bool
  is_some none = false
  is_some (some a) = true

-- The empty text is false in a test.
abbrev pub is_empty : String → Bool
is_empty s = s == ""

-- A chain of steps each of which may have no result, for `do` blocks.
infixl 5 ◌>>=◌
abbrev pub ◌>>=◌ {ℓ κ} : {A : Type ℓ} {B : Type κ} → Option A → (A → Option B) → Option B
none >>= f = none
some a >>= f = f a

-- A text that may be `null` or `undefined`, as a test.
abbrev pub is_truthy : Option String → Bool
is_truthy none = false
is_truthy (some s) = if is_empty s then false else true

-- `s || d` on texts.
abbrev pub text_or : String → String → String
text_or s d = if is_empty s then d else s

-- `o || d` on texts that may be absent.
abbrev pub truthy_or : Option String → String → String
truthy_or none d = d
truthy_or (some s) d = text_or s d

-- `s || null`.
abbrev pub or_null : String → Option String
or_null s = if is_empty s then none else some s

-- A text that passes a test is there.
pub some_of_truthy : (o : Option String) → is_truthy o ≡ true → o ≡ some (coalesce o "")
some_of_truthy none h = cc
some_of_truthy (some s) h = refl

pub not_empty_of_truthy : (s : String) → is_truthy (some s) ≡ true → is_empty s ≡ false
not_empty_of_truthy s h = ground arith

pub truthy_or_of_truthy :
    (o : Option String) (d : String) → is_truthy o ≡ true → truthy_or o d ≡ coalesce o d
truthy_or_of_truthy none d h = refl
truthy_or_of_truthy (some s) d h = rw (not_empty_of_truthy s h)

pub and_true : (a b : Bool) → (a && b) ≡ true → (a ≡ true) × (b ≡ true)
and_true a b h = ground arith

-- What holds of both branches holds of the choice.
pub if_elim {ℓ κ} :
    {A : Type ℓ} (P : A → Type κ) (b : Bool) {x y : A}
    → (b ≡ true → P x)
    → (b ≡ false → P y)
    → P (if b then x else y)
if_elim P true holds fails = holds refl
if_elim P false holds fails = fails refl

pub if_same {ℓ} : {A : Type ℓ} (b : Bool) (x : A) → (if b then x else x) ≡ x
if_same true x = refl
if_same false x = refl

pub nat_ne : (a b : ℕ) → a ≢ b → nat_eq a b ≡ false
nat_ne a b h = ground arith

-- Whether a test holds of all numbers below a bound.
abbrev pub all_below : ℕ → (ℕ → Bool) → Bool
all_below zero p = true
all_below (suc n) p = p n && all_below n p

pub all_below_lem : (n k : ℕ) (p : ℕ → Bool) → all_below n p ≡ true → k < n → p k ≡ true
all_below_lem zero k p h below = ground arith
all_below_lem (suc n) k p h below = elim (Bool-cases (nat_eq k n)) [
  | inl same ↦ rw (eq_of_nat_eq k n same) (and_true (p n) (all_below n p) h).0
  | inr other ↦
      all_below_lem n k p (and_true (p n) (all_below n p) h).1
        (omega (arith, below, ne_of_nat_eq k n other))
]

-- What `grind` and `ground` need for code that compares keys.
pub ruleset key_tests = (arith, eq_iff)
