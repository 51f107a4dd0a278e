-- ===== src/Pages/Breadcrumbs.antt =====
-- frontend/components/layout/Breadcrumbs.tsx: the trail of links above a page.
use mathlib.Core.Option as O
use go_analyze.Prelude.{
  ℕ, zero, suc, ◌+◌, ◌-◌, ◌<◌, String, ◌≡◌, refl, ap, ◌∙◌, Option, none, some, List, [], ◌∷◌, arith,
  ltb, nat_eq, ◌==◌, if◌then◌else◌, coalesce, length, get_elem?, take, ◌<+>◌, text_length,
  take_text, join, non_empty,
}

-- `LABELS[segment]`.
unfoldable pub labels : String → Option String
labels segment =
    if segment == "dashboard"
    then some "Dashboard"
    else if segment == "documents"
    then some "Documents"
    else if segment == "upload"
    then some "Upload"
    else if segment == "analysis"
    then some "Analysis"
    else if segment == "ai-research"
    then some "AI Research"
    else if segment == "environmental-reviews"
    then some "Environmental Reviews"
    else if segment == "cases"
    then some "Cases"
    else if segment == "search"
    then some "Search"
    else if segment == "audit"
    then some "Audit Log"
    else if segment == "setup"
    then some "Setup"
    else if segment == "system"
    then some "System Health"
    else if segment == "login"
    then some "Sign In"
    else none

-- `upper` is `charAt(0).toUpperCase() + slice(1)`.
unfoldable pub label_for : (String → String) → String → String
unfolding labels
label_for upper segment =
    let own : Option String = labels segment in
    elim own [
      | some l ↦ l
      | none ↦ if ltb 12 (text_length segment) then take_text 8 segment <+> "…" else upper segment
    ]

pub record Crumb : Type 0 where
  pub link : Option String  -- `none` for the last one
  pub label : String

-- The crumb of the segment at index `i`.
unfoldable pub crumb_at : (String → String) → List String → ℕ → String → Crumb
crumb_at upper segments i s = record {
  link =
      if nat_eq i (length segments - 1)
      then none
      else some ("/" <+> join "/" (take (i + 1) segments));
  label = label_for upper s;
}

-- The crumbs of the segments from index `i` on.
unfoldable pub crumbs_from : (String → String) → List String → ℕ → List String → List Crumb
crumbs_from upper segments i [] = []
crumbs_from upper segments i (s ∷ ss) =
    crumb_at upper segments i s ∷ crumbs_from upper segments (i + 1) ss

-- The crumbs after the link "Home"; the one crumb "Dashboard" where there is no segment.
unfoldable pub crumbs_of : (String → String) → List String → List Crumb
crumbs_of upper [] = record { link = none; label = "Dashboard" } ∷ []
crumbs_of upper (s ∷ ss) = crumbs_from upper (s ∷ ss) 0 (s ∷ ss)

-- `split` is `split("/")`.
unfoldable pub breadcrumbs : (String → String) → (String → List String) → Option String → List Crumb
breadcrumbs upper split pathname = crumbs_of upper (non_empty (split (coalesce pathname "/")))

crumbs_from-get_elem? :
    (upper : String → String) (segments rest : List String) (i n : ℕ) (s : String)
    → get_elem? rest n ≡ some s
    → get_elem? (crumbs_from upper segments i rest) n ≡ some (crumb_at upper segments (i + n) s)
unfolding crumbs_from
crumbs_from-get_elem? upper segments [] i n s h = cc
crumbs_from-get_elem? upper segments (r ∷ rest) i zero s h =
    ap (O.map (crumb_at upper segments i)) h
    ∙ ap (λ (k : ℕ). some (crumb_at upper segments k s)) (omega arith)
crumbs_from-get_elem? upper segments (r ∷ rest) i (suc n) s h =
    crumbs_from-get_elem? upper segments rest (i + 1) n s h
    ∙ ap (λ (k : ℕ). some (crumb_at upper segments k s)) (omega arith)

crumb_at-link :
    (upper : String → String) (segments : List String) (n : ℕ) (s : String)
    → n < length segments
    → (crumb_at upper segments n s).link ≡ (
        if ltb (n + 1) (length segments)
        then some ("/" <+> join "/" (take (n + 1) segments))
        else none)
unfolding crumb_at
crumb_at-link upper segments n s h = ground arith

crumbs_of-get_elem? :
    (upper : String → String) (segments : List String) (n : ℕ) (s : String)
    → get_elem? segments n ≡ some s
    → get_elem? (crumbs_of upper segments) n ≡ some (crumb_at upper segments n s)
unfolding crumbs_of
crumbs_of-get_elem? upper [] n s h = cc
crumbs_of-get_elem? upper (r ∷ rest) n s h =
    crumbs_from-get_elem? upper (r ∷ rest) (r ∷ rest) 0 n s h
    ∙ ap (λ (k : ℕ). some (crumb_at upper (r ∷ rest) k s)) (omega arith)

lt_of_get_elem? :
    {A : Type 0} (xs : List A) (n : ℕ) (x : A) → get_elem? xs n ≡ some x → n < length xs
lt_of_get_elem? [] n x h = cc
lt_of_get_elem? (y ∷ ys) zero x h = omega arith
lt_of_get_elem? (y ∷ ys) (suc n) x h = omega (arith, lt_of_get_elem? ys n x h)

-- Each segment of the path that is not empty has its crumb, in order and labelled: one that others
-- follow links to the path up to its segment, and the last one is no link.
pub breadcrumbs-get_elem? :
    (upper : String → String) (split : String → List String) (path : String) (n : ℕ) (s : String)
    → let segments = non_empty (split path) in
      get_elem? segments n ≡ some s
      → (c : Crumb) × (get_elem? (breadcrumbs upper split (some path)) n ≡ some c)
        × (c.label ≡ label_for upper s)
        × (c.link ≡ (
            if ltb (n + 1) (length segments)
            then some ("/" <+> join "/" (take (n + 1) segments))
            else none))
unfolding breadcrumbs
breadcrumbs-get_elem? upper split path n s h =
    let segments = non_empty (split path) in
    (
      crumb_at upper segments n s,
      crumbs_of-get_elem? upper segments n s h,
      unfold crumb_at in refl,
      crumb_at-link upper segments n s (lt_of_get_elem? segments n s h),
    )
