-- ===== src/Pages/Detail.antt =====
-- frontend/components/documents/DocumentMetadata.tsx and DocumentTable.tsx, and
-- frontend/app/documents/[document_id]/page.tsx: what is shown of a document.
pub mod Ingested
pub mod Uploaded
use go_analyze.Prelude.{ℕ, String, Option, none, some, List, [], ◌∷◌, ◌++◌, map, coalesce, ◌<+>◌}
use go_analyze.Platform.{Storage}
use go_analyze.Types.{level_text, SearchHit}
use go_analyze.Cache.{get_cached_document, CachedDocument, CacheEnv}
use go_analyze.Ui.{when_text, when_some, Item, paragraph, field, badge, link}
use go_analyze.Pages.Format.{classification_label}

-- A field that is there only for a text that is not empty.
abbrev pub text_field : String → Option String → List Item
text_field label value = when_text value (field label)

-- `DocumentMetadata`. `format` is `formatDateTime` and `print` is `String` on numbers. For a
-- document that is not known it is the `GapNote`, with its link.
unfoldable pub metadata_view :
    (String → String) → (ℕ → String) → String → Option CachedDocument → List Item
metadata_view format print document_id none =
    paragraph "Document Metadata"
    ∷ paragraph (
        "BACKEND GAP — There is no GET /v1/documents/{document_id} endpoint, and this document ("
        <+> (document_id
            <+> ") wasn't returned by a search or upload in this session, so its metadata can't be displayed. Find it via "))
    ∷ link "/documents" "Documents search"
    ∷ paragraph
        " to populate this page, or use the actions below, which only require the document id."
    ∷ []
metadata_view format print document_id (some d) =
    paragraph "Document Metadata"
    ∷ (when_some d.classification (λ c.
          badge ("badge-classification-" <+> level_text c) (classification_label (level_text c))
          ∷ [])
        ++ field "Filename" (coalesce d.filename "—")
          ∷ field "Content type" (coalesce d.content_type "—")
          ∷ field "Document ID" document_id
          ∷ (text_field "Tenant" d.tenant_id
              ++ (text_field "Case" (coalesce d.case_id none)
                  ++ (when_some d.version (λ v. field "Version" (print v) ∷ [])
                      ++ (text_field "SHA-256" d.sha256
                          ++ when_text d.created_at (λ t. field "Created" (format t)))))))

-- A row of `DocumentTable`, but for its download button, which keeps a state of its own. `score` is
-- `score.toFixed(3)`.
unfoldable pub hit_row : (String → String) → (ℕ → String) → SearchHit → List Item
hit_row format score h =
    link ("/documents/" <+> h.document_id) h.filename
    ∷ (when_text (coalesce h.highlight none) paragraph
        ++ badge ("badge-classification-" <+> level_text h.classification)
            (classification_label (level_text h.classification))
          ∷ paragraph h.content_type
          ∷ paragraph (score h.score)
          ∷ paragraph (format h.created_at)
          ∷ link ("/analysis/" <+> h.document_id) "Analyze"
          ∷ [])

unfoldable pub document_table : (String → String) → (ℕ → String) → List SearchHit → List (List Item)
document_table format score hits = map (hit_row format score) hits

-- The effect of the page: the document that the session knows.
unfoldable pub load_document : CacheEnv → String → Option Storage → Option CachedDocument
load_document env document_id w = get_cached_document env document_id w

-- `doc?.filename ?? "Document"`.
unfoldable pub detail_title : Option CachedDocument → String
detail_title none = "Document"
detail_title (some d) = coalesce d.filename "Document"
