-- ===== src/Pages/Research.antt =====
-- frontend/components/ai-research/ResearchHistory.tsx and frontend/app/ai-research/page.tsx: what is
-- shown of the questions and their answers.
use go_analyze.Hooks.{is_loading}
use go_analyze.Prelude.{
  ℕ, String, ◌||◌, Option, none, some, List, [], ◌∷◌, ◌++◌, map, if◌then◌else◌, coalesce, is_empty,
  is_truthy, ◌<+>◌,
}
use go_analyze.Types.{EvidenceCitation, RagAnswerResponse}
use go_analyze.Ui.{Item, paragraph, link, button, empty_block}
use go_analyze.Hooks.Rag.{ResearchTurn, AskPage}

-- A response is an open object: its `answer` where that is a text, its `citations` where these are an
-- array, and `JSON.stringify` of it or of its absence.
pub record ResponseOps (R : Type 0) : Type 0 where
  pub answer_text : R → Option String
  pub citations : R → Option (List EvidenceCitation)
  pub stringify : Option R → String

-- The reads of the two known fields.
unfoldable pub response_ops :
    {Json : Type 0}
    → (Option (RagAnswerResponse Json) → String)
    → ResponseOps (RagAnswerResponse Json)
response_ops stringify = record {
  answer_text = λ r. r.answer;
  citations = λ r. r.citations;
  stringify = stringify;
}

module _ (print : ℕ → String) where
  abbrev pub page_text : Option ℕ → List Item
  page_text none = []
  page_text (some n) = paragraph ("page " <+> print n) ∷ []

  abbrev pub citation_card : EvidenceCitation → List Item
  citation_card c =
      link ("/documents/" <+> c.document_id) c.document_id
      ∷ (page_text c.page ++ paragraph c.excerpt ∷ [])

  abbrev pub citation_cards : List EvidenceCitation → List Item
  citation_cards [] = []
  citation_cards (c ∷ cs) = citation_card c ++ citation_cards cs

  module _ {R : Type 0} (ops : ResponseOps R) where
    abbrev pub response_text : Option R → String
    response_text none = ops.stringify none
    response_text (some r) = coalesce (ops.answer_text r) (ops.stringify (some r))

    abbrev pub response_citations : Option R → List EvidenceCitation
    response_citations none = []
    response_citations (some r) = coalesce (ops.citations r) []

    abbrev pub answer_items : Option R → List Item
    answer_items r = paragraph (response_text r) ∷ citation_cards (response_citations r)

    unfoldable pub turn_items : ResearchTurn R → List Item
    turn_items t =
        paragraph t.question
        ∷ (if is_truthy t.error_text
            then paragraph (coalesce t.error_text "") ∷ []
            else answer_items t.answer)

    -- `ResearchHistory`.
    unfoldable pub research_history : List (ResearchTurn R) → List (List Item)
    research_history [] =
        (empty_block "Ask your first research question"
            "Attach evidence citations, then ask a question. GoAnalyze will return a server-verified, citation-backed answer."
          ∷ [])
        ∷ []
    research_history (t ∷ ts) = map turn_items (t ∷ ts)

-- The button of the page; `trim` is the text method.
unfoldable pub ask_button : {R : Type 0} → (String → String) → AskPage R → Item
ask_button trim p =
    let waits = is_loading p.rag.status in
    button (if waits then "Asking…" else "Ask") (waits || is_empty (trim p.question))
