-- ===== src/Pages/Analysis/Pipeline.antt =====
-- frontend/components/analysis/ProcessingPipeline.tsx: the row of stages.
use mathlib.Core.List.{Memᴰ}
use mathlib.Core.Path.{ap₂}
use go_analyze.Prelude.{
  ℕ, String, ◌≡◌, refl, sym, ap, ◌∙◌, subst, inl, inr, ◌⊎◌, ◌≢◌, Bool, true, false, ◌||◌, Option,
  none, some, List, [], ◌∷◌, map, arith, eq_iff, ◌==◌, if◌then◌else◌, Bool-cases, Option-cases,
  coalesce, is_some, All,
}
use go_analyze.Types.{canonical_pipeline_stages, StageResult}

pub data PipelineStatus : Type 0 where
  pending failed completed : PipelineStatus

-- A stage's row, by its name, of which `stage_label` is shown.
pub record PipelineRow : Type 0 where
  pub name : String
  pub status : PipelineStatus
  pub duration : Option ℕ

absurd_false : {P : Type 0} → false ≡ true → P
absurd_false {P = P} e = subst (λ b. if b then P else Unit {0}) e tt

absurd_some : {A : Type 0} {P : Type 0} {a : A} → some a ≡ none → P
absurd_some {P = P} e = absurd_false (sym (ap is_some e))

not_same : (a b : String) → a ≢ b → (a == b) ≡ false
not_same a b ne = elim (Bool-cases (a == b)) [
  | inl e ↦ elim (ne ((eq_iff a b).0 e)) [ ]
  | inr e ↦ e
]

absurd_none : {A : Type 0} {P : Type 0} (o : Option A) → o ≡ none → is_some o ≡ true → P
absurd_none none e h = absurd_false h
absurd_none (some a) e h = absurd_some e

module _ {Json : Type 0} where
  -- `new Map(stages.map((s) => [s.stage, s])).get(name)`: a later entry of a key takes the place of an
  -- earlier one.
  unfoldable pub by_stage : List (StageResult Json) → String → Option (StageResult Json)
  by_stage [] name = none
  by_stage (s ∷ ss) name =
      let rest = by_stage ss name in
      elim rest [ some t ↦ some t | none ↦ if s.stage == name then some s else none ]

  abbrev pub is_failed : StageResult Json → Bool
  is_failed s = s.status == "failed" || s.status == "error"

  abbrev pub row_of : String → Option (StageResult Json) → PipelineRow
  row_of name none = record { name = name; status = pending; duration = none }
  row_of name (some s) = record {
    name = name;
    status = if is_failed s then failed else completed;
    duration = some s.duration_ms;
  }

  unfoldable pub pipeline_row : List (StageResult Json) → String → PipelineRow
  pipeline_row stages name = row_of name (by_stage stages name)

  -- The names of the rows: those of the results, or the canonical ones.
  unfoldable pub pipeline_order : List (StageResult Json) → List String
  pipeline_order [] = canonical_pipeline_stages
  pipeline_order (s ∷ ss) = map StageResult.stage (s ∷ ss)

  -- `ProcessingPipeline`.
  unfoldable pub pipeline : Option (List (StageResult Json)) → List PipelineRow
  pipeline stages =
      let results = coalesce stages [] in map (pipeline_row results) (pipeline_order results)

  abbrev pub IsShown : List (StageResult Json) → PipelineRow → Type 0
  IsShown stages row =
      (s : StageResult Json) × Memᴰ s stages
      × (s.stage ≡ row.name)
      × (row.duration ≡ some s.duration_ms)
      × ((s.status ≡ "failed") ⊎ (s.status ≡ "error") → row.status ≡ failed)
      × (s.status ≢ "failed" → s.status ≢ "error" → row.status ≡ completed)

  is_failed_of :
      (s : StageResult Json) → (s.status ≡ "failed") ⊎ (s.status ≡ "error") → is_failed s ≡ true
  is_failed_of s (inl e) = rw ((eq_iff s.status "failed").1 e) refl
  is_failed_of s (inr e) = elim (Bool-cases (s.status == "failed")) [
    | inl f ↦ rw f refl
    | inr f ↦ rw (f, (eq_iff s.status "error").1 e) refl
  ]

  is_failed_not :
      (s : StageResult Json) → s.status ≢ "failed" → s.status ≢ "error" → is_failed s ≡ false
  is_failed_not s unfailed unerred =
      rw (not_same s.status "failed" unfailed, not_same s.status "error" unerred) refl

  by_stage_sound :
      (stages : List (StageResult Json)) (name : String) (s : StageResult Json)
      → by_stage stages name ≡ some s
      → Memᴰ s stages × (s.stage ≡ name)
  unfolding by_stage
  by_stage_sound [] name s h = cc
  by_stage_sound (t ∷ ts) name s h = elim (Option-cases (by_stage ts name)) [
    | inr (u, found) ↦
        let e : u ≡ s = ground arith in
        let (m, same) = by_stage_sound ts name s (found ∙ ap some e) in (Memᴰ.tail m, same)
    | inl missing ↦ elim (Bool-cases (t.stage == name)) [
      | inl here ↦
          let e : s ≡ t = ground arith in
          (Memᴰ.head e, ap StageResult.stage e ∙ (eq_iff t.stage name).0 here)
      | inr other ↦ ground arith
    ]
  ]

  by_stage_total :
      (stages : List (StageResult Json)) (r : StageResult Json)
      → Memᴰ r stages
      → is_some (by_stage stages r.stage) ≡ true
  unfolding by_stage
  by_stage_total [] r m = elim m [ ]
  by_stage_total (t ∷ ts) r (Memᴰ.head e) = elim (Option-cases (by_stage ts r.stage)) [
    | inr (u, found) ↦ rw (by_stage, found) refl
    | inl missing ↦
        let same : (t.stage == r.stage) ≡ true =
          (eq_iff t.stage r.stage).1 (sym (ap StageResult.stage e)) in
        rw (by_stage, missing, same) refl
  ]
  by_stage_total (t ∷ ts) r (Memᴰ.tail m) = elim (Option-cases (by_stage ts r.stage)) [
    | inr (u, found) ↦ rw (by_stage, found) refl
    | inl missing ↦ absurd_none (by_stage ts r.stage) missing (by_stage_total ts r m)
  ]

  row-IsShown :
      (stages : List (StageResult Json)) (r : StageResult Json)
      → Memᴰ r stages
      → IsShown stages (pipeline_row stages r.stage)
  unfolding pipeline_row
  row-IsShown stages r m = elim (Option-cases (by_stage stages r.stage)) [
    | inl missing ↦ absurd_none (by_stage stages r.stage) missing (by_stage_total stages r m)
    | inr (s, found) ↦
        let (n, same) = by_stage_sound stages r.stage s found in
        (
          s,
          n,
          rw (pipeline_row, found) same,
          rw (pipeline_row, found) refl,
          λ bad. rw (pipeline_row, found) (rw (is_failed_of s bad) refl),
          λ unfailed unerred. rw (pipeline_row, found) (rw (is_failed_not s unfailed unerred) refl),
        )
  ]

  rows-IsShown :
      (stages rest : List (StageResult Json))
      → ((r : StageResult Json) → Memᴰ r rest → Memᴰ r stages)
      → All (IsShown stages) (map (pipeline_row stages) (map StageResult.stage rest))
  rows-IsShown stages [] inside = tt
  rows-IsShown stages (r ∷ rest) inside = (
    row-IsShown stages r (inside r (Memᴰ.head refl)),
    rows-IsShown stages rest (λ q m. inside q (Memᴰ.tail m)),
  )

  names-rows :
      (stages : List (StageResult Json)) (names : List String)
      → map PipelineRow.name (map (pipeline_row stages) names) ≡ names
  unfolding pipeline_row
  names-rows stages [] = refl
  names-rows stages (n ∷ names) = ap₂ ◌∷◌ (name_row n (by_stage stages n)) (names-rows stages names)
    where
      name_row : (n : String) (o : Option (StageResult Json)) → (row_of n o).name ≡ n
      name_row n none = refl
      name_row n (some s) = refl

  -- If the backend returned any stages, the pipeline has one row for each of them, in that order, each
  -- with the duration of a returned result of that stage, as failed if its status is "failed" or
  -- "error", and as completed otherwise; no stage is shown as pending.
  pub pipeline-rows :
      (r : StageResult Json) (rs : List (StageResult Json))
      → (map PipelineRow.name (pipeline (some (r ∷ rs))) ≡ map StageResult.stage (r ∷ rs))
        × All (IsShown (r ∷ rs)) (pipeline (some (r ∷ rs)))
  unfolding pipeline pipeline_order
  pipeline-rows r rs = (
    names-rows (r ∷ rs) (map StageResult.stage (r ∷ rs)),
    rows-IsShown (r ∷ rs) (r ∷ rs) (λ q m. m),
  )
