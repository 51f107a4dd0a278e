-- ===== src/Auth/Refresh.antt =====
-- frontend/lib/auth.ts: `refreshTokens`, `getValidAccessToken` and `isAuthenticated`.
pub mod Laws
pub mod Stored
pub mod Race
use go_analyze.Prelude.{
  ℕ, String, Bool, not, Option, none, some, List, [], ◌∷◌, map, if◌then◌else◌, coalesce, is_truthy,
  truthy_or,
}
use mathlib.Core.Option as O
use go_analyze.Platform.{Storage, is_ok_status, Form, FetchReply, rejected, replied}
use go_analyze.Auth.Tokens.{
  get_stored_tokens, store_tokens, clear_tokens, is_token_expired, tokens_of, StoredTokens, AuthEnv,
  TokenData,
}

-- What a call gives, the storage that it leaves, and the forms that it sent to the token endpoint.
pub record Refreshed : Type 0 where
  pub tokens : Option StoredTokens
  pub session : Storage
  pub sent : List Form

unfoldable pub refresh_form : AuthEnv → String → Form
refresh_form env token =
    ("grant_type", "refresh_token")
    ∷ ("client_id", env.config.keycloak_client_id)
    ∷ ("refresh_token", token)
    ∷ []

-- The answer, seen at the time `now` with the storage `s` that the wait has left.
unfoldable pub settle_refresh :
    AuthEnv → StoredTokens → ℕ → Storage → FetchReply TokenData → Option StoredTokens × Storage
settle_refresh env current now s rejected = (none, s)
settle_refresh env current now s (replied status body) =
    if is_ok_status status
    then elim body [
      | none ↦ (none, s)
      | some d ↦
          let tokens = tokens_of current.refresh_token now d in
          elim (store_tokens env tokens s) [ none ↦ (none, s) | some s' ↦ (some tokens, s') ]
    ]
    else (none, coalesce (clear_tokens (some s)) s)

module _ (env : AuthEnv) (endpoint : Form → FetchReply TokenData)
    (meanwhile : Storage → Storage) where
  unfoldable pub refresh_tokens : ℕ → Storage → Refreshed
  unfolding refresh_form settle_refresh
  refresh_tokens now s = elim (get_stored_tokens env (some s)) [
    | none ↦ record { tokens = none; session = s; sent = [] }
    | some current ↦
        let form = refresh_form env (truthy_or current.refresh_token "") in
        let settled = settle_refresh env current now (meanwhile s) (endpoint form) in
        if is_truthy current.refresh_token
        then record { tokens = settled.0; session = settled.1; sent = form ∷ [] }
        else record { tokens = none; session = s; sent = [] }
  ]

  -- The token, the storage and the forms sent. The call starts at `now`, and an answer of the
  -- endpoint is seen at `later`.
  unfoldable pub get_valid_access_token : ℕ → ℕ → Storage → Option String × Storage × List Form
  unfolding refresh_tokens
  get_valid_access_token now later s = elim (get_stored_tokens env (some s)) [
    | none ↦ (none, s, [])
    | some tokens ↦
        let r = refresh_tokens later s in
        if is_token_expired now (some tokens)
        then (O.map StoredTokens.access_token r.tokens, r.session, r.sent)
        else (some tokens.access_token, s, [])
  ]

unfoldable pub is_authenticated : AuthEnv → ℕ → Option Storage → Bool
is_authenticated env now w = not (is_token_expired now (get_stored_tokens env w))
