-- ===== src/Pages/Routes.antt =====
-- frontend/app: the pages that there are, by the segments of their path, and the links that lead to
-- them.
use go_analyze.Pages.Breadcrumbs.{breadcrumbs, breadcrumbs-get_elem?, Crumb}
use go_analyze.Prelude.{
  ℕ, zero, suc, ◌+◌, ◌<◌, String, ◌≡◌, refl, ap, ◌∙◌, ◌⊎◌, inl, inr, Bool, true, false, not, ◌&&◌,
  ◌||◌, Option, some, List, [], ◌∷◌, ◌++◌, arith, eq_iff, ltb, ◌==◌, if_elim, length, get_elem?,
  take, all, any, All, ◌<+>◌, join, split_text, non_empty, IsSegment, segments-join, segments-All,
}
use go_analyze.Pages.Sidebar.{nav_groups, NavItem, NavGroup}

-- A text is one of these.
abbrev one_of : List String → String → Bool
one_of names s = any (λ t. t == s) names

-- The pages at the top.
abbrev top_pages : List String
top_pages =
    "dashboard" ∷ "documents" ∷ "search" ∷ "ai-research" ∷ "environmental-reviews" ∷ "cases"
    ∷ "audit" ∷ "setup" ∷ "system" ∷ "login" ∷ []

-- The directories under frontend/app with a `page.tsx`: `[document_id]` and `[case_id]` stand for one
-- segment of any text.
abbrev pub is_page : List String → Bool
is_page [] = true
is_page (s ∷ []) = one_of top_pages s
is_page (s ∷ t ∷ []) =
    one_of ("documents" ∷ "analysis" ∷ "cases" ∷ []) s || (s == "login" && t == "callback")
is_page (s ∷ t ∷ u ∷ rest) = false

-- The page that a link leads to.
abbrev pub leads_to_page : String → Bool
leads_to_page path = is_page (non_empty (split_text b'/' path))

abbrev pub entries : List NavGroup → List NavItem
entries [] = []
entries (g ∷ gs) = g.items ++ entries gs

entries_lead : all (λ (item : NavItem). leads_to_page item.href) (entries nav_groups) ≡ true
unfolding nav_groups non_empty
entries_lead = refl

take-All : (P : String → Type 0) (n : ℕ) (ss : List String) → All P ss → All P (take n ss)
take-All P zero ss h = tt
take-All P (suc n) [] h = tt
take-All P (suc n) (s ∷ ss) (p, h) = (p, take-All P n ss h)

second_level :
    (s t : String)
    → is_page (s ∷ t ∷ []) ≡ true
    → (("documents" == s) ≡ true)
      ⊎ (("analysis" == s) ≡ true)
      ⊎ (("cases" == s) ≡ true)
      ⊎ ((s == "login") ≡ true)
second_level s t page = ground arith

top_page : (s t : String) → is_page (s ∷ t ∷ []) ≡ true → is_page (s ∷ []) ≡ not (s == "analysis")
top_page s t page = elim (second_level s t page) [
  | inl e ↦ rw (← (eq_iff "documents" s).0 e) refl
  | inr (inl e) ↦ rw (← (eq_iff "analysis" s).0 e) refl
  | inr (inr (inl e)) ↦ rw (← (eq_iff "cases" s).0 e) refl
  | inr (inr (inr e)) ↦ rw ((eq_iff s "login").0 e) refl
]

-- A page above another one, but for the directory `analysis`, which has no page of its own.
page_above :
    (n : ℕ) (ss : List String)
    → is_page ss ≡ true
    → n + 1 < length ss
    → is_page (take (n + 1) ss) ≡ not (join "/" (take (n + 1) ss) == "analysis")
page_above n [] page h = ground (arith, h)
page_above n (s ∷ []) page h = ground (arith, h)
page_above n (s ∷ t ∷ u ∷ rest) page h = cc
page_above zero (s ∷ t ∷ []) page h = top_page s t page
page_above (suc n) (s ∷ t ∷ []) page h = ground (arith, h)

-- Every entry of the navigation leads to a page. On a page, each crumb but the last is a link to the
-- path above, and this leads to a page too, unless it is "/analysis", where there is none.
pub breadcrumbs-lead :
    (upper : String → String) (path : String) (n : ℕ) (s : String)
    → let segments = non_empty (split_text b'/' path) in
      let above = take (n + 1) segments in
      is_page segments ≡ true
      → get_elem? segments n ≡ some s
      → n + 1 < length segments
      → (all (λ (item : NavItem). leads_to_page item.href) (entries nav_groups) ≡ true)
        × ((c : Crumb) × (get_elem? (breadcrumbs upper (split_text b'/') (some path)) n ≡ some c)
            × (c.link ≡ some ("/" <+> join "/" above))
            × (leads_to_page ("/" <+> join "/" above) ≡ not (join "/" above == "analysis")))
breadcrumbs-lead upper path n s page here more =
    let segments = non_empty (split_text b'/' path) in
    let above = take (n + 1) segments in
    let (c, found, _, link) = breadcrumbs-get_elem? upper (split_text b'/') path n s here in
    let shown : c.link ≡ some ("/" <+> join "/" above) =
      link
      ∙ if_elim (λ (o : Option String). o ≡ some ("/" <+> join "/" above))
          (ltb (n + 1) (length segments)) (λ _. refl) (λ e. ground arith) in
    (
      entries_lead,
      (
        c,
        found,
        shown,
        ap is_page (segments-join above (take-All IsSegment (n + 1) segments (segments-All path)))
            ∙ page_above n segments page more,
      ),
    )
