-- ===== src/Setup/Steps.antt =====
-- frontend/app/setup/page.tsx: the steps of the wizard.
pub mod Moves
use go_analyze.Prelude.{ℕ, ◌+◌, ◌-◌, min, max, String, List, [], ◌∷◌, nat_eq, if◌then◌else◌}

pub data StepId : Type 0 where
  database storage search cache identity ocr ai notifications review : StepId

unfoldable pub steps : List (StepId × String)
steps =
    (database, "PostgreSQL")
    ∷ (storage, "MinIO & Object Storage")
    ∷ (search, "OpenSearch")
    ∷ (cache, "Redis")
    ∷ (identity, "Identity Provider")
    ∷ (ocr, "OCR Engine")
    ∷ (ai, "AI Provider")
    ∷ (notifications, "Email Notifications")
    ∷ (review, "Review & Finish")
    ∷ []

-- The clicks that move the wizard. The step buttons are those of `steps`, so `go_to` has an index of
-- that list.
pub data Move : Type 0 where
  go_to : ℕ → Move
  back next : Move

-- `Math.max(0, i - 1)` and `Math.min(STEPS.length - 1, i + 1)`; ℕ stops at 0 by itself. The buttons
-- "Back" on the first step and "Next" on the last are disabled or not there.
unfoldable pub move : Move → ℕ → ℕ
move (go_to index) i = index
move back i = if nat_eq i 0 then i else max 0 (i - 1)
move next i = if nat_eq i 8 then i else min 8 (i + 1)
