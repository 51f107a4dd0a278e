-- ===== src/Auth/Login/Flow.antt =====
-- frontend/lib/auth.ts: the redirect to the identity provider and the way back.
use go_analyze.Prelude.{
  ℕ, code, String, ◌≡◌, refl, ◌∙◌, inl, inr, true, false, Option, none, some, [], ◌∷◌, arith,
  eq_iff, Bool-cases, Option-cases, coalesce, is_empty,
}
use go_analyze.Platform.{
  Storage, get_item, remove_item, get_item-remove_item_self, get_item-remove_item_ne, is_ok_status,
  Form, FetchReply, rejected, replied,
}
use go_analyze.Auth.Tokens.{
  token_storage_key, pkce_verifier_key, auth_state_key, store_tokens, tokens_of, AuthEnv, TokenData,
}
use go_analyze.Auth.Refresh.Stored.{get_item-store_tokens}
use go_analyze.Api.Url.Query.{get_param}
use go_analyze.Config.{oidc_redirect_uri}
use go_analyze.Auth.Login.{
  code_form, state_accepted, settle_login, complete_login, LoginResult, logged_in, invalid_state,
  Completed,
}

-- What the storage holds after a completed login: no verifier and no state, and the tokens.
pub record IsSettled (env : AuthEnv) (now : ℕ) (s : Storage) (reply : FetchReply TokenData)
    (s' : Storage) : Type 0 where
  pub status : ℕ
  pub answer : TokenData
  pub stored : Storage
  pub answered : reply ≡ replied status (some answer)
  pub accepted : is_ok_status status ≡ true
  pub kept : store_tokens env (tokens_of none now answer) s ≡ some stored
  pub session : s' ≡ remove_item auth_state_key (remove_item pkce_verifier_key stored)

pub settle_login-IsSettled :
    (env : AuthEnv) (now : ℕ) (s : Storage) (reply : FetchReply TokenData) (s' : Storage)
    → settle_login env now s reply ≡ (logged_in, s')
    → IsSettled env now s reply s'
unfolding settle_login
settle_login-IsSettled env now s rejected s' h = ground arith
settle_login-IsSettled env now s (replied status none) s' h = ground arith
settle_login-IsSettled env now s (replied status (some d)) s' h =
    elim (Option-cases (store_tokens env (tokens_of none now d) s)) [
      | inl full ↦ ground arith
      | inr (s₁, stored) ↦
          let e : (is_ok_status status ≡ true)
              × (s' ≡ remove_item auth_state_key (remove_item pkce_verifier_key s₁)) =
            ground arith in
          record {
            status = status;
            answer = d;
            stored = s₁;
            answered = refl;
            accepted = e.0;
            kept = stored;
            session = e.1;
          }
    ]

get_item-verifier_removed :
    (s : Storage)
    → get_item pkce_verifier_key (remove_item auth_state_key (remove_item pkce_verifier_key s))
      ≡ none
get_item-verifier_removed s =
    get_item-remove_item_ne auth_state_key pkce_verifier_key (remove_item pkce_verifier_key s) refl
    ∙ get_item-remove_item_self pkce_verifier_key s

get_item-tokens_kept :
    (s : Storage)
    → get_item token_storage_key (remove_item auth_state_key (remove_item pkce_verifier_key s))
      ≡ get_item token_storage_key s
get_item-tokens_kept s =
    get_item-remove_item_ne auth_state_key token_storage_key (remove_item pkce_verifier_key s) refl
    ∙ get_item-remove_item_ne pkce_verifier_key token_storage_key s refl

pub logged_in_pair : (p : LoginResult × Storage) → p.0 ≡ logged_in → p ≡ (logged_in, p.1)
logged_in_pair (r, s) e = cc

pub state_accepted_inv :
    (verifier expected : Option String) (state : String)
    → state_accepted verifier expected state ≡ true
    → (verifier ≡ some (coalesce verifier ""))
      × (is_empty (coalesce verifier "") ≡ false)
      × (expected ≡ some state)
state_accepted_inv none expected state h = cc
state_accepted_inv (some v) none state h = ground arith
state_accepted_inv (some v) (some e) state h = ground (arith, eq_iff state e)

module _ (env : AuthEnv) (endpoint : Form → FetchReply TokenData)
    (meanwhile : Storage → Storage) where
  pub complete_login_accepted :
      (now : ℕ) (code state : String) (s : Storage)
      → state_accepted (get_item pkce_verifier_key s) (get_item auth_state_key s) state ≡ true
      → let form = code_form env code (coalesce (get_item pkce_verifier_key s) "") in
        complete_login env endpoint meanwhile now code state s ≡ record {
          result = (settle_login env now (meanwhile s) (endpoint form)).0;
          session = (settle_login env now (meanwhile s) (endpoint form)).1;
          sent = form ∷ [];
        }
  unfolding complete_login
  complete_login_accepted now code state s e = rw (complete_login, e)

  -- A login whose state is not the stored one, or for which no state or verifier is stored, is
  -- refused: nothing is sent to the token endpoint and the storage is as it was.
  pub complete_login_refused :
      (now : ℕ) (code state : String) (s : Storage)
      → state_accepted (get_item pkce_verifier_key s) (get_item auth_state_key s) state ≡ false
      → complete_login env endpoint meanwhile now code state s
        ≡ record { result = invalid_state; session = s; sent = [] }
  unfolding complete_login
  complete_login_refused now code state s e = rw (complete_login, e)

  -- The form that exchanges a code, by the names of its fields.
  pub record Exchanges (code verifier : String) (form : Form) : Type 0 where
    pub verifier_sent : get_param "code_verifier" form ≡ some verifier
    pub code_sent : get_param "code" form ≡ some code
    pub grant_sent : get_param "grant_type" form ≡ some "authorization_code"
    pub client_sent : get_param "client_id" form ≡ some env.config.keycloak_client_id
    pub redirect_sent : get_param "redirect_uri" form ≡ some (oidc_redirect_uri (some env.origin))

  code_form-Exchanges :
      (code verifier : String) → Exchanges code verifier (code_form env code verifier)
  unfolding code_form
  code_form-Exchanges code verifier = record {
    verifier_sent = refl;
    code_sent = refl;
    grant_sent = refl;
    client_sent = refl;
    redirect_sent = refl;
  }

  -- What holds of the storage `s` and of the answer if a login ends well.
  pub record IsLoggedIn (now : ℕ) (code state : String) (s : Storage) (c : Completed) : Type 0 where
    pub verifier : String
    pub stored_verifier : get_item pkce_verifier_key s ≡ some verifier
    pub verifier_present : is_empty verifier ≡ false
    pub stored_state : get_item auth_state_key s ≡ some state
    pub asked : c.sent ≡ code_form env code verifier ∷ []
    pub exchanged : Exchanges code verifier (code_form env code verifier)
    pub status : ℕ
    pub answer : TokenData
    pub answered : endpoint (code_form env code verifier) ≡ replied status (some answer)
    pub accepted : is_ok_status status ≡ true
    pub tokens :
        get_item token_storage_key c.session ≡ some (env.stringify (tokens_of none now answer))
    pub verifier_gone : get_item pkce_verifier_key c.session ≡ none
    pub state_gone : get_item auth_state_key c.session ≡ none

  accepted_sound :
      (now : ℕ) (code state : String) (s : Storage)
      → state_accepted (get_item pkce_verifier_key s) (get_item auth_state_key s) state ≡ true
      → (complete_login env endpoint meanwhile now code state s).result ≡ logged_in
      → IsLoggedIn now code state s (complete_login env endpoint meanwhile now code state s)
  accepted_sound now code state s good h =
      let same = complete_login_accepted now code state s good in
      let verifier = coalesce (get_item pkce_verifier_key s) "" in
      let form = code_form env code verifier in
      let settled = settle_login env now (meanwhile s) (endpoint form) in
      let g =
        settle_login-IsSettled env now (meanwhile s) (endpoint form) settled.1
          (logged_in_pair settled (cc (same, h))) in
      let (v, w, e) =
        state_accepted_inv (get_item pkce_verifier_key s) (get_item auth_state_key s) state good in
      rw same (record {
        verifier = verifier;
        stored_verifier = v;
        verifier_present = w;
        stored_state = e;
        asked = refl;
        exchanged = code_form-Exchanges code verifier;
        status = g.status;
        answer = g.answer;
        answered = g.answered;
        accepted = g.accepted;
        tokens = rw g.session (
            get_item-tokens_kept g.stored
            ∙ get_item-store_tokens env (tokens_of none now g.answer) (meanwhile s) g.stored
                g.kept);
        verifier_gone = rw g.session (get_item-verifier_removed g.stored);
        state_gone = rw g.session (get_item-remove_item_self auth_state_key _);
      })

  -- A login ends well only if the state that came back is the stored one and a verifier is stored,
  -- the one form sent has that verifier under "code_verifier", the code under "code", the grant type
  -- "authorization_code", and the client and the address of the configuration, the endpoint accepted
  -- it, the JSON text of its tokens is stored, and verifier and state are gone.
  pub complete_login_sound :
      (now : ℕ) (code state : String) (s : Storage)
      → (complete_login env endpoint meanwhile now code state s).result ≡ logged_in
      → IsLoggedIn now code state s (complete_login env endpoint meanwhile now code state s)
  complete_login_sound now code state s h =
      elim (Bool-cases
        (state_accepted (get_item pkce_verifier_key s) (get_item auth_state_key s) state)) [
          | inr bad ↦ cc (complete_login_refused now code state s bad, h)
          | inl good ↦ accepted_sound now code state s good h
        ]

  -- A login that ended well cannot be repeated: with the storage that it left, any code and any
  -- state are refused, and nothing is sent, whatever the endpoint would answer.
  pub complete_login_once :
      (now now' : ℕ) (code code' state state' : String) (s : Storage)
      → let c = complete_login env endpoint meanwhile now code state s in
        c.result ≡ logged_in
        → complete_login env endpoint meanwhile now' code' state' c.session
          ≡ record { result = invalid_state; session = c.session; sent = [] }
  complete_login_once now now' code code' state state' s h =
      let c = complete_login env endpoint meanwhile now code state s in
      complete_login_refused now' code' state' c.session
        (rw (complete_login_sound now code state s h).verifier_gone)
