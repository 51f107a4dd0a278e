-- ===== src/Setup/Steps/Moves.antt =====
-- frontend/app/setup/page.tsx: where the wizard can be.
use go_analyze.Prelude.{
  ℕ, zero, suc, ◌+◌, ◌<◌, min, String, ◌≡◌, refl, ap, ◌∙◌, Bool, true, false, List, [], ◌∷◌, arith,
  eq_iff, nat_eq, ◌==◌, if◌then◌else◌, all_below, all_below_lem, length, All,
}
use go_analyze.Ui.{button}
use go_analyze.Setup.View.{step_buttons, wizard_nav, StepButton}
use go_analyze.Setup.Steps.{steps, move, StepId, Move, go_to, back, next}

-- A click that the page offers.
abbrev pub IsOffered : Move → Type 0
IsOffered (go_to index) = index < length steps
IsOffered _ = Unit {0}

-- The clicks of a visit, one after the other.
abbrev pub moves : List Move → ℕ → ℕ
moves [] i = i
moves (m ∷ ms) i = moves ms (move m i)

move-lt : (m : Move) (i : ℕ) → IsOffered m → i < length steps → move m i < length steps
unfolding move steps
move-lt (go_to index) i h k = h
move-lt back i h k = ground arith
move-lt next i h k = ground arith

moves-lt :
    (ms : List Move) (i : ℕ) → All IsOffered ms → i < length steps → moves ms i < length steps
moves-lt [] i h k = k
moves-lt (m ∷ ms) i (p, h) k = moves-lt ms (move m i) h (move-lt m i p k)

abbrev pub current_labels : List StepButton → List String
current_labels [] = []
current_labels (b ∷ bs) =
    let rest = current_labels bs in if b.is_current then b.label ∷ rest else rest

-- The label of the step at a place.
abbrev pub label_at : ℕ → List (StepId × String) → String
label_at i [] = ""
label_at zero ((id, label) ∷ more) = label
label_at (suc i) (s ∷ more) = label_at i more

abbrev one_text : List String → String → Bool
one_text (s ∷ []) t = s == t
one_text _ t = false

one_text_lem : (ss : List String) (t : String) → one_text ss t ≡ true → ss ≡ t ∷ []
one_text_lem [] t h = cc
one_text_lem (s ∷ []) t h = ap (λ x. x ∷ []) ((eq_iff s t).0 h)
one_text_lem (s ∷ r ∷ rs) t h = cc

current_checked :
    all_below 9 (λ i. one_text (current_labels (step_buttons i)) (label_at i steps)) ≡ true
unfolding step_buttons steps
current_checked = refl

nav_of_last : (i : ℕ) → i ≡ 8 → wizard_nav i ≡ button "Back" false ∷ []
unfolding wizard_nav
nav_of_last i e = rw e refl

nav_of_other :
    (i : ℕ) → i < 8 → wizard_nav i ≡ button "Back" (nat_eq i 0) ∷ button "Next" false ∷ []
unfolding wizard_nav
nav_of_other i h = let e : nat_eq i 8 ≡ false = ground arith in rw (wizard_nav, e) refl

-- From any step, whatever the user clicks of what the page offers: the wizard is at one of its nine
-- steps; exactly the button of this step is marked as current; and "Next" is there before the review
-- only, "Back" usable after the first step.
pub moves_shown :
    (ms : List Move) (i : ℕ)
    → All IsOffered ms
    → i < length steps
    → let at = moves ms i in
      (at < length steps)
      × (current_labels (step_buttons at) ≡ label_at at steps ∷ [])
      × (at ≡ 8 → wizard_nav at ≡ button "Back" false ∷ [])
      × (at < 8 → wizard_nav at ≡ button "Back" (nat_eq at 0) ∷ button "Next" false ∷ [])
unfolding steps
moves_shown ms i h k =
    let below = moves-lt ms i h k in
    (
      below,
      one_text_lem _ _ (
          all_below_lem 9 (moves ms i)
            (λ i. one_text (current_labels (step_buttons i)) (label_at i steps)) current_checked
            below),
      nav_of_last (moves ms i),
      nav_of_other (moves ms i),
    )

-- `n` clicks on "Next".
abbrev pub nexts : ℕ → List Move
nexts zero = []
nexts (suc n) = next ∷ nexts n

move-next : (i : ℕ) → i < length steps → move next i ≡ min 8 (i + 1)
unfolding move steps
move-next i h = ground arith

moves-nexts : (n i : ℕ) → i < length steps → moves (nexts n) i ≡ min 8 (i + n)
unfolding steps
moves-nexts zero i h = omega arith
moves-nexts (suc n) i h =
    ap (moves (nexts n)) (move-next i h)
    ∙ (moves-nexts n (min 8 (i + 1)) (omega arith) ∙ omega arith)

move-back-next : (i : ℕ) → i < 8 → move back (move next i) ≡ i
unfolding move
move-back-next i h = ground arith

-- From any step, "Next" leads through the steps in order and stays at the review, which eight clicks
-- reach; "Back" undoes "Next" except on the review.
move_next_back :
    (n i : ℕ)
    → i < length steps
    → (moves (nexts n) i ≡ min 8 (i + n))
      × (moves (nexts 8) i ≡ 8)
      × (i < 8 → move back (move next i) ≡ i)
unfolding steps
move_next_back n i h = (moves-nexts n i h, moves-nexts 8 i h ∙ omega arith, move-back-next i)
