-- ===== src/Hooks/Rag.antt =====
-- frontend/hooks/useRag.ts and frontend/app/ai-research/page.tsx: the questions and their answers.
use mathlib.Core.List.{reverse, reverse-cons, append_assoc}
use go_analyze.Prelude.{
  String, ◌≡◌, refl, ◌∙◌, Bool, true, false, Option, none, some, List, [], ◌∷◌, ◌++◌, if◌then◌else◌,
  is_empty,
}
use go_analyze.Hooks.{AsyncStatus, loading, success, error}

-- What `ragApi.answer` ended with: a response, an `Error` with its message, or another exception.
pub data RagReply (R : Type 0) : Type 0 where
  response : R → RagReply R
  failed : String → RagReply R
  failed_otherwise : RagReply R

pub record ResearchTurn (R : Type 0) : Type 0 where
  pub question : String
  pub answer : Option R
  pub error_text : Option String
  pub timestamp : String

pub record RagState (R : Type 0) : Type 0 where
  pub status : AsyncStatus
  pub failure : Option (RagReply R)
  pub history : List (ResearchTurn R)

-- The page: the typed question and the hook.
pub record AskPage (R : Type 0) : Type 0 where
  pub question : String
  pub rag : RagState R

module _ {R : Type 0} where
  unfoldable pub start_ask : RagState R → RagState R
  start_ask s = record s { status = loading; failure = none }

  -- `err instanceof Error ? err.message : …`.
  abbrev pub turn_of : String → String → RagReply R → ResearchTurn R
  turn_of question timestamp (response r) = record {
    question = question;
    answer = some r;
    error_text = none;
    timestamp = timestamp;
  }
  turn_of question timestamp (failed m) = record {
    question = question;
    answer = none;
    error_text = some m;
    timestamp = timestamp;
  }
  turn_of question timestamp failed_otherwise = record {
    question = question;
    answer = none;
    error_text = some "The AI research request failed.";
    timestamp = timestamp;
  }

  abbrev pub is_response : RagReply R → Bool
  is_response (response r) = true
  is_response _ = false

  unfoldable pub settle_ask : String → String → RagReply R → RagState R → RagState R
  settle_ask question timestamp reply s = record {
    status = if is_response reply then success else error;
    failure = if is_response reply then s.failure else some reply;
    history = turn_of question timestamp reply ∷ s.history;
  }

  -- `handleAsk` up to its await; `none` if there is nothing to ask. `trim` is the text method.
  unfoldable pub handle_ask : (String → String) → AskPage R → Option (String × AskPage R)
  handle_ask trim p =
      if is_empty (trim p.question)
      then none
      else some (trim p.question, record p { rag = start_ask p.rag })

  -- Its end: the input is cleared only after an answer.
  unfoldable pub end_ask : String → String → RagReply R → AskPage R → AskPage R
  end_ask asked timestamp reply p = record {
    question = if is_response reply then "" else p.question;
    rag = settle_ask asked timestamp reply p.rag;
  }

  -- The ends of a session's questions, each with the question and the time of its start.
  abbrev pub ask_all : List (String × String × RagReply R) → RagState R → RagState R
  ask_all [] s = s
  ask_all ((question, timestamp, reply) ∷ more) s =
      ask_all more (settle_ask question timestamp reply s)

  abbrev pub turns : List (String × String × RagReply R) → List (ResearchTurn R)
  turns [] = []
  turns ((question, timestamp, reply) ∷ more) = turn_of question timestamp reply ∷ turns more

  -- The history has one turn for each question that ended, the newest first, failed ones included.
  ask_all-history :
      (ends : List (String × String × RagReply R)) (s : RagState R)
      → (ask_all ends s).history ≡ reverse (turns ends) ++ s.history
  unfolding settle_ask
  ask_all-history [] s = refl
  ask_all-history ((question, timestamp, reply) ∷ more) s =
      ask_all-history more (settle_ask question timestamp reply s)
      ∙ (rw (reverse-cons, append_assoc))
