-- ===== src/Tests/HelperRuns.antt =====
-- frontend/lib/utils.ts and the links of the pages: the theorems at concrete inputs.
use go_analyze.Prelude.{
  ℕ, ◌≤◌, ◌<◌, String, ◌≡◌, refl, true, not, none, some, [], ◌∷◌, ◌++◌, arith, nat_eq, ◌==◌,
  if◌then◌else◌, get_elem?, all, All, ◌<+>◌, join, split_text, non_empty,
}
use go_analyze.Pages.Sidebar.{nav_groups, NavItem}
use go_analyze.Pages.Breadcrumbs.{breadcrumbs, Crumb}
use go_analyze.Pages.Routes.{leads_to_page, entries, breadcrumbs-lead}
use go_analyze.Types.{public, DocumentProcessingResult, SearchHit}
use go_analyze.Cache.{blank}
use go_analyze.Hooks.{initial_async, start, AsyncState}
use go_analyze.Ui.{Thrown}
use go_analyze.Pages.Detail.{document_table}
use go_analyze.Pages.Download.{initial_download}
use go_analyze.Pages.Research.{citation_cards}
use go_analyze.Pages.Screens.Lists.{dashboard_heading, risk_overview, processing_status}
use go_analyze.Pages.Screens.{document_screen}
use go_analyze.Pages.Screens.Links.{Leads, document_screen-Leads}
use go_analyze.Pages.Sizes.{format_bytes, format_bytes-unit, NumberOps, IsLog, IsShownAs}

abbrev print : ℕ → String
print n = if nat_eq n 1024 then "1024" else "0"

abbrev kilobytes : NumberOps
kilobytes = record { log_1024 = λ b. 1; print = print }

kilobytes-IsLog : IsLog kilobytes 1048575
kilobytes-IsLog = record { below = omega arith; above = omega arith }

format_bytes-unit_example :
    (1048575 < 1024 → IsShownAs kilobytes 1048575 1 "B")
    × (1024 ≤ 1048575 → 1048575 < 1048576 → IsShownAs kilobytes 1048575 1024 "KB")
    × (1048576 ≤ 1048575 → 1048575 < 1073741824 → IsShownAs kilobytes 1048575 1048576 "MB")
    × (1073741824 ≤ 1048575 → 1048575 < 1099511627776 → IsShownAs kilobytes 1048575 1073741824 "GB")
    × (1099511627776 ≤ 1048575
        → (n : String) × (format_bytes kilobytes 1048575 ≡ n <+> (" " <+> "undefined")))
format_bytes-unit_example = format_bytes-unit kilobytes 1048575 kilobytes-IsLog (omega arith)

breadcrumbs-lead_example :
    (all (λ (item : NavItem). leads_to_page item.href) (entries nav_groups) ≡ true)
    × ((c : Crumb) × (get_elem? (breadcrumbs (λ s. s) (split_text b'/') (some "/analysis/7")) 0
          ≡ some c)
        × (c.link ≡ some ("/" <+> join "/" ("analysis" ∷ [])))
        × (leads_to_page ("/" <+> join "/" ("analysis" ∷ []))
            ≡ not (join "/" ("analysis" ∷ []) == "analysis")))
unfolding non_empty
breadcrumbs-lead_example =
    breadcrumbs-lead (λ s. s) "/analysis/7" 0 "analysis" refl refl (omega arith)

abbrev hit : SearchHit
hit = record {
  document_id = "7";
  filename = "a.pdf";
  content_type = "application/pdf";
  classification = public;
  score = 1;
  highlight = none;
  created_at = "";
}

abbrev waiting_hook : AsyncState (DocumentProcessingResult String ℕ) Thrown
waiting_hook = start initial_async

document_screen-Leads_example :
    All Leads (
      document_screen
        (λ t. t)
        (λ n. "1")
        "7"
        (some (blank "7"))
        initial_download
        initial_download
        waiting_hook)
    × All (All Leads) (document_table (λ t. t) (λ n. "1") (hit ∷ []))
    × All Leads (citation_cards (λ n. "1") [])
    × All Leads (dashboard_heading ++ (risk_overview ++ processing_status))
document_screen-Leads_example =
    document_screen-Leads (λ t. t) (λ n. "1") "7" (some (blank "7")) initial_download
      initial_download waiting_hook (hit ∷ []) [] ((refl, tt), refl) (((refl, tt), refl), tt) tt
