-- ===== src/Auth/Machine/Runs.antt =====
-- frontend/lib/auth.ts: the calls of a page as runs of the steps.
use go_analyze.Prelude.{
  ℕ, code, String, ◌≡◌, refl, true, some, List, ◌∷◌, ◌++◌, coalesce, is_truthy, truthy_or,
}
use go_analyze.Platform.{Storage, get_item, Form, FetchReply}
use go_analyze.Auth.Tokens.{
  pkce_verifier_key, auth_state_key, get_stored_tokens, is_token_expired, StoredTokens, AuthEnv,
  TokenData,
}
use go_analyze.Auth.Login.{code_form, state_accepted, complete_login, Crypto}
use go_analyze.Auth.Login.Flow.{complete_login_accepted}
use go_analyze.Auth.Refresh.{refresh_form, get_valid_access_token}
use go_analyze.Auth.Refresh.Laws.{refresh_tokens_with}
use go_analyze.Auth.Machine.{
  Reach-trans, Pending, exchanging, refreshing, World, comes_back, code_answered, asks_refresh,
  refresh_answered, Reach, here, extended,
}

-- Some run from `w` ends with this storage.
abbrev pub RunsTo : AuthEnv → Crypto → World → Storage → Type 0
RunsTo env crypto w s = (u : World) × Reach env crypto w u × (u.storage ≡ s)

module _ (env : AuthEnv) (crypto : Crypto) (endpoint : Form → FetchReply TokenData)
    (meanwhile : Storage → Storage) where
  -- Where what happens to the storage while the token endpoint is awaited is itself a run that leaves
  -- the request under way, a call of `completeLogin` whose state is the stored one does to the storage
  -- what a run of the steps does.
  complete_login-RunsTo :
      (w u : World) (before rest : List Pending) (now : ℕ) (code state : String)
      → let verifier = coalesce (get_item pkce_verifier_key w.storage) "" in
        let asked = record w { pending = exchanging code verifier state ∷ w.pending } in
        state_accepted
            (get_item pkce_verifier_key w.storage)
            (get_item auth_state_key w.storage)
            state
          ≡ true
        → Reach env crypto asked u
        → u.pending ≡ before ++ exchanging code verifier state ∷ rest
        → u.storage ≡ meanwhile w.storage
        → RunsTo env crypto w
            (complete_login env endpoint meanwhile now code state w.storage).session
  complete_login-RunsTo w u before rest now code state good r under_way same =
      let verifier = coalesce (get_item pkce_verifier_key w.storage) "" in
      let form = code_form env code verifier in
      let reply = endpoint form in
      let answered = code_answered u code verifier state before rest now reply under_way in
      (
        _,
        extended (Reach-trans env crypto (extended here (comes_back w code state good)) r) answered,
        rw (same, complete_login_accepted env endpoint meanwhile now code state w.storage good)
            refl,
      )

  -- Where what happens to the storage while the token endpoint is awaited is itself a run that leaves
  -- the request under way, a call of `getValidAccessToken` for stored tokens that are used up and have
  -- a refresh token does to the storage what a run of the steps does.
  get_valid_access_token-RunsTo :
      (w u : World) (before rest : List Pending) (now later : ℕ) (current : StoredTokens)
      → let asked = record w { pending = refreshing current ∷ w.pending } in
        get_stored_tokens env (some w.storage) ≡ some current
        → is_truthy current.refresh_token ≡ true
        → is_token_expired now (some current) ≡ true
        → Reach env crypto asked u
        → u.pending ≡ before ++ refreshing current ∷ rest
        → u.storage ≡ meanwhile w.storage
        → RunsTo env crypto w (get_valid_access_token env endpoint meanwhile now later w.storage).1
  unfolding get_valid_access_token
  get_valid_access_token-RunsTo w u before rest now later current stored y used r under_way same =
      let form = refresh_form env (truthy_or current.refresh_token "") in
      let answered = refresh_answered u current before rest later (endpoint form) under_way in
      (
        _,
        extended (Reach-trans env crypto (extended here (asks_refresh w current stored y)) r)
            answered,
        rw
            (
              same,
              stored,
              get_valid_access_token,
              used,
              refresh_tokens_with env endpoint meanwhile current later w.storage stored y,
            )
            refl,
      )
