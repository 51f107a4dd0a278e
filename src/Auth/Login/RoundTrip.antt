-- ===== src/Auth/Login/RoundTrip.antt =====
-- frontend/lib/auth.ts: `login` followed by `completeLogin`, and the address to go on to.
use go_analyze.Auth.Login.Flow.{complete_login_accepted, complete_login_sound}
use go_analyze.Auth.Refresh.{is_authenticated}
use go_analyze.Auth.Refresh.Stored.{get_stored_tokens_of, same_answer, IsJson}
use go_analyze.Prelude.{
  ℕ, ◌+◌, ◌*◌, ◌<◌, code, String, ◌≡◌, refl, ap, ◌∙◌, inl, inr, true, false, none, some, List,
  arith, eq_refl, Bool-cases, coalesce, is_empty, text_or,
}
use go_analyze.Platform.{
  Storage, get_item, set_item, Room, try_set_item, is_ok_status, Form, FetchReply, replied,
}
use go_analyze.Auth.Base64Url.{base64_url_encode, random_string}
use go_analyze.Auth.Tokens.{
  token_storage_key, pkce_verifier_key, auth_state_key, post_login_redirect_key, get_stored_tokens,
  store_tokens, is_token_expired, tokens_of, AuthEnv, TokenData,
}
use go_analyze.Api.Url.Query.{get_param}
use go_analyze.Config.{oidc_redirect_uri}
use go_analyze.Auth.Login.{
  authorization_query, store_login, login, code_form, state_accepted, settle_login, complete_login,
  consume_post_login_redirect, Redirect, Crypto, logged_in,
}

pub record HasLogin (verifier state redirect_after : String) (s : Storage) : Type 0 where
  pub verifier_stored : get_item pkce_verifier_key s ≡ some verifier
  pub state_stored : get_item auth_state_key s ≡ some state
  pub redirect_stored : get_item post_login_redirect_key s ≡ some redirect_after

three_items :
    (v st r : String) (s : Storage)
    → HasLogin v st r (
        set_item post_login_redirect_key r
          (set_item auth_state_key st (set_item pkce_verifier_key v s)))
unfolding get_item set_item
three_items v st r s = record {
  verifier_stored = refl;
  state_stored = refl;
  redirect_stored = refl;
}

store_login-HasLogin :
    (room : Room) (v st r : String) (s s' : Storage)
    → store_login room v st r s ≡ (s', true)
    → HasLogin v st r s'
unfolding store_login try_set_item
store_login-HasLogin room v st r s s' h =
    let e : s'
        ≡ set_item post_login_redirect_key r
            (set_item auth_state_key st (set_item pkce_verifier_key v s)) =
      ground arith in
    rw e (three_items v st r s)

pub HasLogin-accepted :
    {v st r : String} {s : Storage}
    → HasLogin v st r s
    → is_empty v ≡ false
    → is_empty st ≡ false
    → state_accepted (get_item pkce_verifier_key s) (get_item auth_state_key s) st ≡ true
HasLogin-accepted {st} has full full' =
    rw (has.verifier_stored, has.state_stored, full, full', eq_refl st)

settle_login_granted :
    (env : AuthEnv) (now : ℕ) (s : Storage) (status : ℕ) (d : TokenData)
    → is_ok_status status ≡ true
    → env.room s token_storage_key (env.stringify (tokens_of none now d)) ≡ true
    → (settle_login env now s (replied status (some d))).0 ≡ logged_in
unfolding settle_login store_tokens try_set_item
settle_login_granted env now s status d ok space = rw (settle_login, ok, space)

is_authenticated_until :
    (env : AuthEnv) (t now : ℕ) (d : TokenData) (s : Storage)
    → get_stored_tokens env (some s) ≡ some (tokens_of none now d)
    → t + 30000 < now + coalesce d.expires_in 300 * 1000
    → is_authenticated env t (some s) ≡ true
unfolding is_authenticated is_token_expired tokens_of
is_authenticated_until env t now d s stored later = rw (stored, is_authenticated) (ground arith)

consumed :
    (s : Storage) (r : String)
    → get_item post_login_redirect_key s ≡ some r
    → (consume_post_login_redirect s).0 ≡ text_or r "/dashboard"
unfolding consume_post_login_redirect
consumed s r e = rw e

module _ (env : AuthEnv) (crypto : Crypto) (verifier_bytes state_bytes : List ℕ)
    (redirect_after : String) where
  -- What `login` draws, and what it sends for the verifier.
  abbrev pub drawn_verifier : String
  drawn_verifier = random_string crypto.btoa verifier_bytes 64

  abbrev pub drawn_state : String
  drawn_state = random_string crypto.btoa state_bytes 24

  abbrev pub drawn_challenge : String
  drawn_challenge = base64_url_encode crypto.btoa (crypto.sha256 drawn_verifier)

  pub login-HasLogin :
      (s s' : Storage) (url : Redirect)
      → login env crypto verifier_bytes state_bytes redirect_after s ≡ (s', some url)
      → HasLogin drawn_verifier drawn_state redirect_after s'
        × (url.query ≡ authorization_query env drawn_state drawn_challenge)
  unfolding login
  login-HasLogin s s' url h =
      let written = store_login env.room drawn_verifier drawn_state redirect_after s in
      elim (Bool-cases written.1) [
        | inl all_stored ↦ (
          store_login-HasLogin env.room drawn_verifier drawn_state redirect_after s s'
              (ground arith),
          ground arith,
        )
        | inr failed ↦ ground arith
      ]

  -- With the state that was drawn.
  pub login-complete_login_drawn :
      (endpoint : Form → FetchReply TokenData) (meanwhile : Storage → Storage) (now status t : ℕ)
      (d : TokenData) (code : String) (s s' : Storage) (url : Redirect)
      → IsJson env (tokens_of none now d)
      → login env crypto verifier_bytes state_bytes redirect_after s ≡ (s', some url)
      → is_empty drawn_verifier ≡ false
      → is_empty drawn_state ≡ false
      → endpoint (code_form env code drawn_verifier) ≡ replied status (some d)
      → is_ok_status status ≡ true
      → env.room (meanwhile s') token_storage_key (env.stringify (tokens_of none now d)) ≡ true
      → t + 30000 < now + coalesce d.expires_in 300 * 1000
      → let c = complete_login env endpoint meanwhile now code drawn_state s' in
        (c.result ≡ logged_in)
        × (is_authenticated env t (some c.session) ≡ true)
        × ((consume_post_login_redirect s').0 ≡ text_or redirect_after "/dashboard")
  login-complete_login_drawn endpoint meanwhile now status t d code s s' url json h v w answered ok
        space later =
      let (has, _) = login-HasLogin s s' url h in
      let good = HasLogin-accepted has v w in
      let ended : (complete_login env endpoint meanwhile now code drawn_state s').result
          ≡ logged_in =
        rw
          (
            complete_login_accepted env endpoint meanwhile now code drawn_state s' good,
            has.verifier_stored,
            answered,
          )
          (settle_login_granted env now (meanwhile s') status d ok space) in
      let l = complete_login_sound env endpoint meanwhile now code drawn_state s' ended in
      let same_verifier : l.verifier ≡ drawn_verifier =
        cc (l.stored_verifier, has.verifier_stored) in
      let same : l.answer ≡ d = same_answer {n = status} l.answered (rw same_verifier answered) in
      (
        ended,
        is_authenticated_until env t now d _
            (get_stored_tokens_of env (tokens_of none now d) _ json
              (l.tokens ∙ ap (λ a. some (env.stringify (tokens_of none now a))) same))
            later,
        consumed s' redirect_after has.redirect_stored,
      )

  -- What the authorization request says, by the names of its parameters.
  pub record Requests (query : Form) : Type 0 where
    pub state_sent : get_param "state" query ≡ some drawn_state
    pub challenge_sent : get_param "code_challenge" query ≡ some drawn_challenge
    pub method_sent : get_param "code_challenge_method" query ≡ some "S256"
    pub response_sent : get_param "response_type" query ≡ some "code"
    pub client_sent : get_param "client_id" query ≡ some env.config.keycloak_client_id
    pub redirect_sent : get_param "redirect_uri" query ≡ some (oidc_redirect_uri (some env.origin))

  authorization_query-Requests : Requests (authorization_query env drawn_state drawn_challenge)
  unfolding authorization_query
  authorization_query-Requests = record {
    state_sent = refl;
    challenge_sent = refl;
    method_sent = refl;
    response_sent = refl;
    client_sent = refl;
    redirect_sent = refl;
  }

  -- A login that sends the browser to the identity provider can be completed: with the state under
  -- "state" in the address, in whatever way other tasks change the storage during the request, if
  -- state and verifier are not empty, the endpoint accepts the code with the drawn verifier and the
  -- browser accepts the write of the tokens, which `JSON.parse` reads back, it ends well. The address
  -- carries, by the names of its parameters, the drawn state, the challenge made of that verifier with
  -- the method "S256", the response type "code", and the client and the address of the configuration.
  -- The page is signed in for as long as the token lasts, 30 s less, and the address to go on to that
  -- `login` has stored is the one it was given, or the dashboard for an empty one.
  pub login-complete_login :
      (endpoint : Form → FetchReply TokenData) (meanwhile : Storage → Storage) (now status t : ℕ)
      (d : TokenData) (code : String) (s s' : Storage) (url : Redirect)
      → IsJson env (tokens_of none now d)
      → login env crypto verifier_bytes state_bytes redirect_after s ≡ (s', some url)
      → is_empty drawn_verifier ≡ false
      → is_empty drawn_state ≡ false
      → endpoint (code_form env code drawn_verifier) ≡ replied status (some d)
      → is_ok_status status ≡ true
      → env.room (meanwhile s') token_storage_key (env.stringify (tokens_of none now d)) ≡ true
      → t + 30000 < now + coalesce d.expires_in 300 * 1000
      → let returned_state = coalesce (get_param "state" url.query) "" in
        let c = complete_login env endpoint meanwhile now code returned_state s' in
        Requests url.query
        × (c.result ≡ logged_in)
        × (is_authenticated env t (some c.session) ≡ true)
        × ((consume_post_login_redirect s').0 ≡ text_or redirect_after "/dashboard")
  login-complete_login endpoint meanwhile now status t d code s s' url json h v w answered ok space
        later =
      let query = (login-HasLogin s s' url h).1 in
      let asked : Requests url.query = rw query authorization_query-Requests in
      let (ended, signed, target) =
        login-complete_login_drawn endpoint meanwhile now status t d code s s' url json h v w
          answered ok space later in
      rw asked.state_sent (asked, ended, signed, target)
