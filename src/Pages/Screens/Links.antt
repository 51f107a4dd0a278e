-- ===== src/Pages/Screens/Links.antt =====
-- frontend/app/documents/[document_id]/page.tsx, frontend/components/documents/DocumentTable.tsx and
-- frontend/components/ai-research/ResearchHistory.tsx: where the links on them lead.
use text.Mathlib.TextLemmas.{append_assoc}
use go_analyze.Hooks.{AsyncState}
use go_analyze.Pages.Download.{download_view, DownloadState}
use go_analyze.Pages.Processing.{processing_card}
use go_analyze.Pages.Screens.Lists.{dashboard_heading, risk_overview, processing_status}
use go_analyze.Pages.Screens.{gap_note, document_screen}
use go_analyze.Pages.Research.{page_text, citation_card, citation_cards}
use go_analyze.Types.{DocumentProcessingResult, SearchHit, EvidenceCitation}
use go_analyze.Cache.{CachedDocument}
use go_analyze.Pages.Detail.{metadata_view, hit_row, document_table}
use go_analyze.Prelude.{
  ℕ, String, ◌≡◌, refl, ap, ◌∙◌, Bool, true, false, Option, none, some, List, [], ◌∷◌, ◌++◌, map,
  coalesce, is_empty, if_elim, All, All-append, ◌<+>◌, non_empty, IsSegment, segments-join,
  segments-All,
}
use go_analyze.Ui.{when_text, when_some, when, Item, paragraph, field, link, Thrown}
use go_analyze.Pages.Routes.{is_page, leads_to_page}

-- A link leads to a page; the other parts of a page lead nowhere.
abbrev pub Leads : Item → Type 0
Leads (link address t) = leads_to_page address ≡ true
Leads _ = Unit {0}

-- An address of two segments, with the slashes in the first text.
leads_below :
    (dir id : String)
    → All IsSegment (dir ∷ id ∷ [])
    → leads_to_page ((("/" <+> dir) <+> "/") <+> id) ≡ is_page (dir ∷ id ∷ [])
leads_below dir id h =
    ap leads_to_page (append_assoc ("/" <+> dir) "/" id ∙ append_assoc "/" dir ("/" <+> id))
    ∙ ap is_page (segments-join (dir ∷ id ∷ []) h)

documents-IsSegment : IsSegment "documents"
unfolding non_empty
documents-IsSegment = (segments-All "documents").0

analysis-IsSegment : IsSegment "analysis"
unfolding non_empty
analysis-IsSegment = (segments-All "analysis").0

document_leads : (id : String) → IsSegment id → leads_to_page ("/documents/" <+> id) ≡ true
document_leads id h = leads_below "documents" id (documents-IsSegment, (h, tt))

analysis_leads : (id : String) → IsSegment id → leads_to_page ("/analysis/" <+> id) ≡ true
analysis_leads id h = leads_below "analysis" id (analysis-IsSegment, (h, tt))

dashboard_heading-Leads : All Leads (dashboard_heading ++ (risk_overview ++ processing_status))
unfolding dashboard_heading risk_overview processing_status gap_note non_empty
dashboard_heading-Leads =
    (tt, (tt, (refl, (refl, (refl, (tt, (tt, (tt, (refl, (tt, (tt, (tt, (tt, (refl, tt))))))))))))))

upload_leads : leads_to_page "/documents/upload" ≡ true
unfolding non_empty
upload_leads = refl

documents_leads : leads_to_page "/documents" ≡ true
unfolding non_empty
documents_leads = refl

-- Parts that may be there, before the rest of a page.
text_then :
    (o : Option String) (make : String → Item) (rest : List Item)
    → ((s : String) → Leads (make s))
    → All Leads rest
    → All Leads (when_text o make ++ rest)
text_then none make rest h hs = hs
text_then (some s) make rest h hs =
    if_elim (λ (items : List Item). All Leads (items ++ rest)) (is_empty s) (λ e. hs)
      (λ e. (h s, hs))

some_then :
    {A : Type 0} (o : Option A) (make : A → List Item) (rest : List Item)
    → ((a : A) → All Leads (make a))
    → All Leads rest
    → All Leads (when_some o make ++ rest)
some_then none make rest h hs = hs
some_then (some a) make rest h hs = All-append Leads (make a) rest (h a) hs

when-All : (b : Bool) (items : List Item) → All Leads items → All Leads (when b items)
when-All true items h = h
when-All false items h = tt

alone : (o : List Item) → All Leads (o ++ []) → All Leads o
alone [] h = tt
alone (i ∷ o) (p, h) = (p, alone o h)

hit_row-All :
    (format : String → String) (score : ℕ → String) (h : SearchHit)
    → IsSegment h.document_id
    → All Leads (hit_row format score h)
unfolding hit_row
hit_row-All format score h id = (
  document_leads h.document_id id,
  text_then (coalesce h.highlight none) paragraph _ (λ t. tt)
      (tt, (tt, (tt, (tt, (analysis_leads h.document_id id, tt))))),
)

citation_cards-All :
    (print : ℕ → String) (cs : List EvidenceCitation)
    → All (λ (c : EvidenceCitation). IsSegment c.document_id) cs
    → All Leads (citation_cards print cs)
citation_cards-All print [] h = tt
citation_cards-All print (c ∷ cs) (id, h) =
    All-append Leads (citation_card print c) (citation_cards print cs)
      (document_leads c.document_id id, page_then c.page) (citation_cards-All print cs h)
  where
    page_then : (o : Option ℕ) → All Leads (page_text print o ++ paragraph c.excerpt ∷ [])
    page_then none = (tt, tt)
    page_then (some n) = (tt, (tt, tt))

metadata_then :
    (format : String → String) (print : ℕ → String) (id : String) (doc : Option CachedDocument)
    (rest : List Item)
    → All Leads rest
    → All Leads (metadata_view format print id doc ++ rest)
unfolding metadata_view
metadata_then format print id none rest h = (tt, (tt, (documents_leads, (tt, h))))
metadata_then format print id (some d) rest h =
    All-append Leads (metadata_view format print id (some d)) rest
      (
        tt,
        some_then d.classification _ _ (λ c. (tt, tt))
            (
              tt,
              (
                tt,
                (
                  tt,
                  text_then d.tenant_id (field "Tenant") _ (λ t. tt)
                      (text_then (coalesce d.case_id none) (field "Case") _ (λ t. tt)
                        (some_then d.version _ _ (λ v. (tt, tt))
                          (text_then d.sha256 (field "SHA-256") _ (λ t. tt)
                            (alone _ (
                              text_then d.created_at (λ t. field "Created" (format t)) [] (λ t. tt)
                                tt))))),
                ),
              ),
            ),
      )
      h

download_then :
    (s : DownloadState) (rest : List Item) → All Leads rest → All Leads (download_view s ++ rest)
unfolding download_view
download_then s rest h = (tt, text_then s.error_text (λ m. paragraph m) rest (λ m. tt) h)

processing_then :
    {Json Score : Type 0} (print : ℕ → String)
    (s : AsyncState (DocumentProcessingResult Json Score) Thrown) (rest : List Item)
    → All Leads rest
    → All Leads (processing_card print s ++ rest)
unfolding processing_card
processing_then print s rest h =
    All-append Leads (processing_card print s) rest
      (some_then s.failure _ _ (λ e. (tt, tt))
        (some_then s.value _ _ (λ r. when-All r.completed _ (tt, tt))
          (tt, alone _ (some_then s.value _ [] (λ r. (tt, tt)) tt))))
      h

-- Where document ids are segments of a path, that is, not empty and without a slash: every link on the
-- page of a document, whatever is known of it and whatever its downloads and its processing do, in
-- every row of a table of documents, on every card of a citation, in the heading of the dashboard and in
-- its two fixed panels leads to a page that there is.
pub document_screen-Leads :
    {Json Score : Type 0} (format : String → String) (print : ℕ → String) (id : String)
    (doc : Option CachedDocument) (top below : DownloadState)
    (hook : AsyncState (DocumentProcessingResult Json Score) Thrown) (hits : List SearchHit)
    (citations : List EvidenceCitation)
    → IsSegment id
    → All (λ (h : SearchHit). IsSegment h.document_id) hits
    → All (λ (c : EvidenceCitation). IsSegment c.document_id) citations
    → All Leads (document_screen format print id doc top below hook)
      × All (All Leads) (document_table format print hits)
      × All Leads (citation_cards print citations)
      × All Leads (dashboard_heading ++ (risk_overview ++ processing_status))
unfolding document_screen document_table
document_screen-Leads format print id doc top below hook hits citations good good_hits
      good_citations =
    (
      (
        tt,
        (
          tt,
          download_then top _ (
            analysis_leads id good,
            metadata_then format print id doc _ (
              upload_leads,
              download_then below _ (processing_then print hook _ (upload_leads, tt)),
            ),
          ),
        ),
      ),
      rows hits good_hits,
      citation_cards-All print citations good_citations,
      dashboard_heading-Leads,
    )
  where
    rows :
        (hs : List SearchHit)
        → All (λ (h : SearchHit). IsSegment h.document_id) hs
        → All (All Leads) (map (hit_row format print) hs)
    rows [] h = tt
    rows (x ∷ xs) (p, h) = (hit_row-All format print x p, rows xs h)
