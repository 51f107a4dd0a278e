-- ===== src/Pages/Citations.antt =====
-- frontend/components/ai-research/CitationBuilder.tsx: the citations attached to a question.
use go_analyze.Prelude.{
  ℕ, zero, suc, ◌+◌, ◌<◌, String, ◌≡◌, inl, inr, Bool, false, ◌||◌, none, List, [], ◌∷◌, ◌++◌,
  arith, if◌then◌else◌, Bool-cases, is_empty, length, All, All-append,
}
use go_analyze.Types.{EvidenceCitation}

abbrev pub empty_citation : EvidenceCitation
empty_citation = record {
  document_id = "";
  version = 1;
  chunk_id = "";
  page = none;
  start_offset = none;
  end_offset = none;
  sha256 = "";
  excerpt = "";
}

-- The page's list, and the draft of the component.
pub record CitationState : Type 0 where
  pub citations : List EvidenceCitation
  pub draft : EvidenceCitation

abbrev pub initial_citations : CitationState
initial_citations = record { citations = []; draft = empty_citation }

-- `!draft.document_id || !draft.chunk_id || !draft.sha256 || !draft.excerpt`.
abbrev pub is_incomplete : EvidenceCitation → Bool
is_incomplete c =
    is_empty c.document_id || (is_empty c.chunk_id || (is_empty c.sha256 || is_empty c.excerpt))

unfoldable pub add_citation : CitationState → CitationState
add_citation s =
    if is_incomplete s.draft
    then s
    else record { citations = s.citations ++ s.draft ∷ []; draft = empty_citation }

-- `filter((_, idx) => idx !== i)`.
unfoldable pub remove_at {ℓ} : {A : Type ℓ} → ℕ → List A → List A
remove_at i [] = []
remove_at zero (x ∷ xs) = xs
remove_at (suc i) (x ∷ xs) = x ∷ remove_at i xs

-- What the user can do. `Number` of the version's text is a parameter of the event.
pub data CitationEvent : Type 0 where
  edit_document_id edit_chunk_id edit_sha256 edit_excerpt : String → CitationEvent
  edit_version : ℕ → CitationEvent
  click_add : CitationEvent
  click_remove : ℕ → CitationEvent

unfoldable pub edit_draft : (EvidenceCitation → EvidenceCitation) → CitationState → CitationState
edit_draft f s = record s { draft = f s.draft }

abbrev pub citation_step : CitationEvent → CitationState → CitationState
citation_step (edit_document_id v) s = edit_draft (λ d. record d { document_id = v }) s
citation_step (edit_chunk_id v) s = edit_draft (λ d. record d { chunk_id = v }) s
citation_step (edit_sha256 v) s = edit_draft (λ d. record d { sha256 = v }) s
citation_step (edit_excerpt v) s = edit_draft (λ d. record d { excerpt = v }) s
citation_step (edit_version v) s = edit_draft (λ d. record d { version = v }) s
citation_step click_add s = add_citation s
citation_step (click_remove i) s = record s { citations = remove_at i s.citations }

abbrev pub citation_run : List CitationEvent → CitationState → CitationState
citation_run [] s = s
citation_run (e ∷ es) s = citation_run es (citation_step e s)

-- A citation that names its document, its chunk and its hash and has an excerpt.
abbrev pub IsCitation : EvidenceCitation → Type 0
IsCitation c = is_incomplete c ≡ false

pub All-remove_at {ℓ κ} :
    {A : Type ℓ} (P : A → Type κ) (i : ℕ) (xs : List A) → All P xs → All P (remove_at i xs)
unfolding remove_at
All-remove_at P i [] h = h
All-remove_at P zero (x ∷ xs) (p, h) = h
All-remove_at P (suc i) (x ∷ xs) (p, h) = (p, All-remove_at P i xs h)

-- Dropping an entry of a list: one fewer, those before it in place and those after it one earlier.
pub length-remove_at {ℓ} :
    {A : Type ℓ} (i : ℕ) (xs : List A) → i < length xs → length (remove_at i xs) + 1 ≡ length xs
unfolding remove_at
length-remove_at i [] h = omega arith
length-remove_at zero (x ∷ xs) h = omega arith
length-remove_at (suc i) (x ∷ xs) h = omega (arith, length-remove_at i xs (omega arith))

add_citation-All :
    (s : CitationState) → All IsCitation s.citations → All IsCitation (add_citation s).citations
unfolding add_citation
add_citation-All s h = elim (Bool-cases (is_incomplete s.draft)) [
  | inl bad ↦ rw (add_citation, bad) h
  | inr good ↦
      rw (add_citation, good) (All-append IsCitation s.citations (s.draft ∷ []) h (good, tt))
]

citation_step-All :
    (e : CitationEvent) (s : CitationState)
    → All IsCitation s.citations
    → All IsCitation (citation_step e s).citations
unfolding edit_draft
citation_step-All click_add s h = add_citation-All s h
citation_step-All (click_remove i) s h = All-remove_at IsCitation i s.citations h
citation_step-All (edit_document_id v) s h = h
citation_step-All (edit_chunk_id v) s h = h
citation_step-All (edit_sha256 v) s h = h
citation_step-All (edit_excerpt v) s h = h
citation_step-All (edit_version v) s h = h

-- Whatever the user edits, adds and removes, in any order: if every attached citation names its
-- document, its chunk and its hash and has an excerpt, so does every one afterwards.
citation_run-All :
    (es : List CitationEvent) (s : CitationState)
    → All IsCitation s.citations
    → All IsCitation (citation_run es s).citations
citation_run-All [] s h = h
citation_run-All (e ∷ es) s h = citation_run-All es (citation_step e s) (citation_step-All e s h)
