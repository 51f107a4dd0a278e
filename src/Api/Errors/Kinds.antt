-- ===== src/Api/Errors/Kinds.antt =====
-- frontend/lib/api.ts: what `kindForStatus` says of a status.
use go_analyze.Prelude.{ℕ, ◌≤◌, ◌<◌, ◌≡◌, ◌≢◌, ◌↔◌, arith}
use go_analyze.Api.Errors.{
  kind_for_status, Kind, unauthorized, forbidden, validation, not_found, server, network, timeout,
  unknown,
}

-- The kinds that `kindForStatus` can give, each with the statuses it is given for.
abbrev pub KindOf : ℕ → Kind → Type 0
KindOf status unauthorized = status ≡ 401
KindOf status forbidden = status ≡ 403
KindOf status not_found = status ≡ 404
KindOf status validation = status ≡ 422
KindOf status server = 500 ≤ status
KindOf status network = ⊥
KindOf status timeout = ⊥
KindOf status unknown =
    (status < 500) × (status ≢ 401) × (status ≢ 403) × (status ≢ 404) × (status ≢ 422)

kind_for_status-KindOf : (status : ℕ) → KindOf status (kind_for_status status)
unfolding kind_for_status
kind_for_status-KindOf status = ground arith

kind_for_status_of_KindOf : (status : ℕ) (k : Kind) → KindOf status k → kind_for_status status ≡ k
unfolding kind_for_status
kind_for_status_of_KindOf status unauthorized h = ground arith
kind_for_status_of_KindOf status _ h = ground arith

-- A status has the kind that the contract gives it, and no other: 401, 403, 404 and 422 have kinds
-- of their own, a status from 500 on is the server's, no status is a network failure or a timeout,
-- and every other one is unknown.
pub kind_for_status_iff : (status : ℕ) (k : Kind) → (kind_for_status status ≡ k) ↔ KindOf status k
kind_for_status_iff status k =
    (λ e. rw e at (kind_for_status-KindOf status), kind_for_status_of_KindOf status k)
