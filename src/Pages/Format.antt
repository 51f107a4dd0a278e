-- ===== src/Pages/Format.antt =====
-- frontend/lib/utils.ts and frontend/components/ui/Badges.tsx: how times, levels and states are
-- printed.
use go_analyze.Prelude.{
  ℕ, ◌+◌, ◌-◌, ◌*◌, ◌/◌, ◌≤◌, ◌<◌, String, Option, none, some, [], ◌∷◌, arith, ltb, ◌==◌,
  if◌then◌else◌, coalesce, is_truthy, any, ◌<+>◌,
}

-- What `formatRelativeTime` says of a time that it can read.
pub data Age : Type 0 where
  just_now : Age
  minutes hours days : ℕ → Age

-- `Math.round(diffMs / 60000)`, and so on: half a unit is rounded up. A time to come has a negative
-- difference, which rounds to 0 or below; ℕ stops at 0.
unfoldable pub age_of : ℕ → ℕ → Age
age_of now date =
    let diff_min = (now - date + 30000) / 60000 in
    let diff_hr = (diff_min + 30) / 60 in
    let diff_day = (diff_hr + 12) / 24 in
    if ltb diff_min 1
    then just_now
    else if ltb diff_min 60
    then minutes diff_min
    else if ltb diff_hr 24
    then hours diff_hr
    else days diff_day

abbrev pub age_text : (ℕ → String) → Age → String
age_text print just_now = "just now"
age_text print (minutes n) = print n <+> "m ago"
age_text print (hours n) = print n <+> "h ago"
age_text print (days n) = print n <+> "d ago"

-- `parse` is `new Date(iso).getTime()`, `none` for NaN.
unfoldable pub format_relative_time :
    (ℕ → String) → (String → Option ℕ) → ℕ → Option String → String
format_relative_time print parse now iso =
    let text = coalesce iso "" in
    let shown : String = elim (parse text) [
      | none ↦ text
      | some date ↦ age_text print (age_of now date)
    ] in
    if is_truthy iso then shown else "—"

-- `classificationLabel`.
unfoldable pub classification_label : String → String
classification_label level =
    if level == "public"
    then "Public"
    else if level == "internal"
    then "Internal"
    else if level == "confidential"
    then "Confidential"
    else if level == "protected_b"
    then "Protected B"
    else level

-- The class of `StatusBadge`, for the status in lower case.
unfoldable pub status_kind : String → String
status_kind s =
    if any (λ t. t == s) ("completed" ∷ "success" ∷ "accepted" ∷ "ready" ∷ [])
    then "success"
    else if any (λ t. t == s) ("failed" ∷ "error" ∷ "rejected" ∷ [])
    then "danger"
    else if any (λ t. t == s) ("pending" ∷ "processing" ∷ "running" ∷ [])
    then "warning"
    else "neutral"

-- `a` and `b` are at most `d` apart.
abbrev pub IsNear : ℕ → ℕ → ℕ → Type 0
IsNear a b d = (a ≤ b + d) × (b ≤ a + d)

-- What an age tells of the milliseconds that have passed: each unit is used in its range, and is off
-- by half of itself and of the smaller ones at most.
abbrev pub AgeTells : ℕ → Age → Type 0
AgeTells ms just_now = ms < 30000
AgeTells ms (minutes n) = (1 ≤ n) × (n < 60) × IsNear (n * 60000) ms 30000
AgeTells ms (hours n) = (1 ≤ n) × (n < 24) × IsNear (n * 3600000) ms 1830000
AgeTells ms (days n) = (1 ≤ n) × IsNear (n * 86400000) ms 45030000

-- The relative time of a page is right: below half a minute it is "just now", else minutes from 1 to
-- 59, hours from 1 to 23 or days from 1 on, off by 30 s, 30.5 minutes and 12 h 30.5 minutes at most.
age_of-AgeTells : (now date : ℕ) → AgeTells (now - date) (age_of now date)
unfolding age_of
age_of-AgeTells now date = ground arith
