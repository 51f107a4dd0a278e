-- ===== src/Pages/Sidebar.antt =====
-- frontend/components/layout/Sidebar.tsx: the entries of the navigation, and which of them are active.
use text.Mathlib.TextEquality.{Char-path}
use mathlib.Core.Path.{ap₂}
use text.Mathlib.TextLemmas.{nil-append, cons-append}
use go_analyze.Prelude.{
  code, String, ◌≡◌, refl, sym, ◌∙◌, ◌↔◌, ◌⊎◌, inl, inr, Bool, true, false, ◌&&◌, ◌||◌, Option,
  none, some, List, [], ◌∷◌, arith, eq_iff, nat_eq, ◌==◌, eq_of_nat_eq, Bool-cases, coalesce,
  and_true, ◌<+>◌,
}

pub record NavItem : Type 0 where
  pub href : String
  pub label : String
  pub match_prefix : Option String

pub record NavGroup : Type 0 where
  pub group_label : Option String
  pub items : List NavItem

abbrev plain_item : String → String → NavItem
plain_item href label = record { href = href; label = label; match_prefix = none }

abbrev prefix_item : String → String → String → NavItem
prefix_item href label prefix = record { href = href; label = label; match_prefix = some prefix }

unfoldable pub nav_groups : List NavGroup
nav_groups =
    record { group_label = none; items = plain_item "/dashboard" "Dashboard" ∷ [] }
    ∷ record {
      group_label = some "Document Intelligence";
      items =
          prefix_item "/documents" "Documents" "/documents"
          ∷ plain_item "/search" "Search"
          ∷ plain_item "/ai-research" "AI Research"
          ∷ [];
    }
    ∷ record {
      group_label = some "Analysis";
      items =
          plain_item "/documents" "Document Analysis"
          ∷ plain_item "/environmental-reviews" "Environmental Reviews"
          ∷ prefix_item "/cases" "Cases" "/cases"
          ∷ [];
    }
    ∷ record { group_label = some "Governance"; items = plain_item "/audit" "Audit Log" ∷ [] }
    ∷ record {
      group_label = some "System";
      items = plain_item "/setup" "Setup" ∷ plain_item "/system" "System Health" ∷ [];
    }
    ∷ []

-- `path.startsWith(prefix)`.
unfoldable pub starts_with : String → String → Bool
starts_with String.[] path = true
starts_with (String.◌∷◌ c s) String.[] = false
starts_with (String.◌∷◌ c s) (String.◌∷◌ d t) = nat_eq (code c) (code d) && starts_with s t

-- `none` is a path that is not known.
unfoldable pub is_active : Option String → NavItem → Bool
is_active none item = false
is_active (some path) item =
    path == item.href || starts_with (coalesce item.match_prefix item.href <+> "/") path

starts_with-append : (p s : String) → starts_with p (p <+> s) ≡ true
unfolding starts_with
starts_with-append String.[] s = refl
starts_with-append (String.◌∷◌ c p) s =
    rw (cons-append, starts_with) (ground (arith, starts_with-append p s))

rest_of_starts_with : (p t : String) → starts_with p t ≡ true → (s : String) × (t ≡ p <+> s)
unfolding starts_with
rest_of_starts_with String.[] t h = (t, sym (nil-append t))
rest_of_starts_with (String.◌∷◌ c p) String.[] h = cc
rest_of_starts_with (String.◌∷◌ c p) (String.◌∷◌ d t) h =
    let (same, more) = and_true _ _ h in
    let (s, e) = rest_of_starts_with p t more in
    (s, ap₂ String.◌∷◌ (sym (Char-path c d (eq_of_nat_eq _ _ same))) e ∙ sym (cons-append c p s))

-- An entry is marked as active exactly if the path is its address, or continues its prefix after a
-- slash: "/documents-old" does not mark "/documents".
is_active_iff :
    (path : String) (item : NavItem)
    → (is_active (some path) item ≡ true) ↔ (
        (path ≡ item.href)
        ⊎ ((rest : String) × (path ≡ (coalesce item.match_prefix item.href <+> "/") <+> rest)))
unfolding is_active
is_active_iff path item =
    let prefix = coalesce item.match_prefix item.href <+> "/" in
    (
      λ h. elim (Bool-cases (path == item.href)) [
        | inl here ↦ inl ((eq_iff path item.href).0 here)
        | inr away ↦ inr (rest_of_starts_with prefix path (ground (arith, away, h)))
      ],
      λ h. elim h [
        | inl here ↦ ground (arith, (eq_iff path item.href).1 here)
        | inr (rest, e) ↦
            let y : starts_with prefix path ≡ true = rw e (starts_with-append prefix rest) in
            ground (arith, y)
      ],
    )
