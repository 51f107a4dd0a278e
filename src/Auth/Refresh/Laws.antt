-- ===== src/Auth/Refresh/Laws.antt =====
-- frontend/lib/auth.ts: what `getValidAccessToken` and `refreshTokens` give, on every branch.
use mathlib.Core.Option as O
use go_analyze.Prelude.{
  ℕ, ◌+◌, ◌-◌, ◌*◌, ◌≤◌, ◌<◌, String, ◌≡◌, refl, sym, ap, ◌∙◌, ◌⊎◌, inl, inr, true, false, Option,
  none, some, List, [], ◌∷◌, arith, leb, Bool-cases, Option-cases, coalesce, is_truthy, truthy_or,
  some_of_truthy, truthy_or_of_truthy,
}
use go_analyze.Platform.{Storage, is_ok_status, Form, FetchReply, replied}
use go_analyze.Auth.Tokens.{
  get_stored_tokens, store_tokens, clear_tokens, is_token_expired, tokens_of, StoredTokens, AuthEnv,
  TokenData,
}
use go_analyze.Auth.Refresh.{
  refresh_form, settle_refresh, refresh_tokens, get_valid_access_token, is_authenticated,
}
use go_analyze.Auth.Refresh.Stored.{
  get_item-store_tokens, get_stored_tokens_of, signed_out, tokens_of_fields, same_answer,
  settle_refresh-IsGranted, IsJson,
}

module _ (env : AuthEnv) (endpoint : Form → FetchReply TokenData)
    (meanwhile : Storage → Storage) where
  -- The stored tokens are still good at `now`, and nothing was sent or written.
  pub record IsFresh (now : ℕ) (s : Storage) (t : String) (s' : Storage) (sent : List Form)
      : Type 0 where
    pub tokens : StoredTokens
    pub stored : get_stored_tokens env (some s) ≡ some tokens
    pub good : now + 30000 < tokens.expires_at
    pub token : t ≡ tokens.access_token
    pub unchanged : s' ≡ s
    pub silent : sent ≡ []

  -- The stored tokens are used up, and one request with their refresh token brought new ones, which
  -- are stored.
  pub record IsRenewed (now later : ℕ) (s : Storage) (t : String) (s' : Storage) (sent : List Form)
      : Type 0 where
    pub tokens : StoredTokens
    pub refresh : String
    pub status : ℕ
    pub answer : TokenData
    pub stored : get_stored_tokens env (some s) ≡ some tokens
    pub expired : tokens.expires_at ≤ now + 30000
    pub refreshable : tokens.refresh_token ≡ some refresh
    pub asked : sent ≡ refresh_form env refresh ∷ []
    pub answered : endpoint (refresh_form env refresh) ≡ replied status (some answer)
    pub accepted : is_ok_status status ≡ true
    pub token : t ≡ answer.access_token
    pub kept :
        store_tokens env (tokens_of tokens.refresh_token later answer) (meanwhile s) ≡ some s'

  -- The form that a refresh with these tokens sends.
  abbrev form_of : StoredTokens → Form
  form_of current = refresh_form env (truthy_or current.refresh_token "")

  pub refresh_tokens_with :
      (tokens : StoredTokens) (later : ℕ) (s : Storage)
      → get_stored_tokens env (some s) ≡ some tokens
      → is_truthy tokens.refresh_token ≡ true
      → refresh_tokens env endpoint meanwhile later s ≡ record {
        tokens = (settle_refresh env tokens later (meanwhile s) (endpoint (form_of tokens))).0;
        session = (settle_refresh env tokens later (meanwhile s) (endpoint (form_of tokens))).1;
        sent = form_of tokens ∷ [];
      }
  unfolding refresh_tokens
  refresh_tokens_with tokens later s stored e = rw (stored, refresh_tokens, e)

  refresh_tokens_without :
      (tokens : StoredTokens) (later : ℕ) (s : Storage)
      → get_stored_tokens env (some s) ≡ some tokens
      → is_truthy tokens.refresh_token ≡ false
      → refresh_tokens env endpoint meanwhile later s
        ≡ record { tokens = none; session = s; sent = [] }
  unfolding refresh_tokens
  refresh_tokens_without tokens later s stored e = rw (stored, refresh_tokens, e)

  IsRenewed-refresh_tokens :
      (tokens t : StoredTokens) (now later : ℕ) (s : Storage)
      → get_stored_tokens env (some s) ≡ some tokens
      → tokens.expires_at ≤ now + 30000
      → (refresh_tokens env endpoint meanwhile later s).tokens ≡ some t
      → IsRenewed now later s t.access_token
          (refresh_tokens env endpoint meanwhile later s).session
          (refresh_tokens env endpoint meanwhile later s).sent
  IsRenewed-refresh_tokens tokens t now later s stored used e =
      elim (Bool-cases (is_truthy tokens.refresh_token)) [
        | inl y ↦
            let same = refresh_tokens_with tokens later s stored y in
            let settled =
              settle_refresh env tokens later (meanwhile s) (endpoint (form_of tokens)) in
            let g =
              settle_refresh-IsGranted env tokens later (meanwhile s) (endpoint (form_of tokens)) t
                settled.1 (cc (same, e)) in
            rw same (record {
              tokens = tokens;
              refresh = truthy_or tokens.refresh_token "";
              status = g.status;
              answer = g.answer;
              stored = stored;
              expired = used;
              refreshable =
                  some_of_truthy tokens.refresh_token y
                  ∙ ap some (sym (truthy_or_of_truthy tokens.refresh_token "" y));
              asked = refl;
              answered = g.answered;
              accepted = g.accepted;
              token = g.access;
              kept = rw g.token at g.kept;
            })
        | inr n ↦ cc (refresh_tokens_without tokens later s stored n, e)
      ]

  -- A token is returned only if the stored tokens are still good for more than 30 s, and then
  -- nothing is sent or written, or if they are not and one request with their refresh token was
  -- answered with tokens, which are stored, and of which this is the access token.
  pub get_valid_access_token_sound :
      (now later : ℕ) (s s' : Storage) (t : String) (sent : List Form)
      → get_valid_access_token env endpoint meanwhile now later s ≡ (some t, s', sent)
      → IsFresh now s t s' sent ⊎ IsRenewed now later s t s' sent
  unfolding get_valid_access_token is_token_expired
  get_valid_access_token_sound now later s s' t sent h =
      elim (Option-cases (get_stored_tokens env (some s))) [
        | inl absent ↦ ground arith
        | inr (tokens, stored) ↦ elim (Bool-cases (leb (tokens.expires_at - 30000) now)) [
          | inl used ↦
              let e : (O.map StoredTokens.access_token
                      (refresh_tokens env endpoint meanwhile later s).tokens
                    ≡ some t)
                  × ((refresh_tokens env endpoint meanwhile later s).session ≡ s')
                  × ((refresh_tokens env endpoint meanwhile later s).sent ≡ sent) =
                ground arith in
              let (new, brought, same) = (O.map-eq-some_iff _ _).0 e.0 in
              inr (
                rw (← e.1, ← e.2, ← same)
                  (IsRenewed-refresh_tokens tokens new now later s stored (ground arith) brought))
          | inr good ↦ inl (record {
            tokens = tokens;
            stored = stored;
            good = ground arith;
            token = ground arith;
            unchanged = ground arith;
            silent = ground arith;
          })
        ]
      ]

  -- Where the stored tokens have a refresh token and the endpoint answers the one request with a status
  -- outside 200 to 299: no tokens come, and the page is signed out, at every time from then on.
  pub refresh_tokens_refused :
      (tokens : StoredTokens) (later status : ℕ) (body : Option TokenData) (s : Storage)
      → get_stored_tokens env (some s) ≡ some tokens
      → is_truthy tokens.refresh_token ≡ true
      → endpoint (form_of tokens) ≡ replied status body
      → is_ok_status status ≡ false
      → let r = refresh_tokens env endpoint meanwhile later s in
        (r.tokens ≡ none)
        × (r.sent ≡ form_of tokens ∷ [])
        × ((now : ℕ) → is_authenticated env now (some r.session) ≡ false)
  unfolding settle_refresh clear_tokens
  refresh_tokens_refused tokens later status body s stored y e bad =
      rw (refresh_tokens_with tokens later s stored y)
        (rw (e, settle_refresh, bad) (refl, refl, λ now. signed_out env now (meanwhile s)))

  -- Where `JSON.parse` undoes `JSON.stringify` and the endpoint's answer to a refresh is stored: it is
  -- what the page finds from then on, with the old refresh token if the answer has none, with the type
  -- "Bearer" if it names none, and good for 300 s if it does not say how long.
  pub refresh_tokens_stored :
      (tokens t : StoredTokens) (later status : ℕ) (answer : TokenData) (s : Storage)
      → IsJson env t
      → get_stored_tokens env (some s) ≡ some tokens
      → is_truthy tokens.refresh_token ≡ true
      → endpoint (form_of tokens) ≡ replied status (some answer)
      → (refresh_tokens env endpoint meanwhile later s).tokens ≡ some t
      → (get_stored_tokens env (some (refresh_tokens env endpoint meanwhile later s).session)
          ≡ some t)
        × (t.access_token ≡ answer.access_token)
        × (t.refresh_token
            ≡ (elim answer.refresh_token [ none ↦ tokens.refresh_token | some r ↦ some r ]))
        × (t.token_type ≡ coalesce answer.token_type "Bearer")
        × (t.expires_at ≡ later + coalesce answer.expires_in 300 * 1000)
  refresh_tokens_stored tokens t later status answer s json stored y a e =
      let same = refresh_tokens_with tokens later s stored y in
      let settled = settle_refresh env tokens later (meanwhile s) (endpoint (form_of tokens)) in
      let g =
        settle_refresh-IsGranted env tokens later (meanwhile s) (endpoint (form_of tokens)) t
          settled.1 (cc (same, e)) in
      let f =
        tokens_of_fields tokens.refresh_token later answer t
          (g.token ∙ ap (tokens_of tokens.refresh_token later) (same_answer g.answered a)) in
      rw same (
        get_stored_tokens_of env t settled.1 json
            (get_item-store_tokens env t (meanwhile s) settled.1 g.kept),
        f.0,
        f.1,
        f.2,
        f.3,
      )
