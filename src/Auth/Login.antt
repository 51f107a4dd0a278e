-- ===== src/Auth/Login.antt =====
-- frontend/lib/auth.ts: `login`, `completeLogin`, `consumePostLoginRedirect` and `logout`.
pub mod Flow
pub mod RoundTrip
use go_analyze.Prelude.{
  ℕ, code, String, Bool, true, false, ◌&&◌, Option, none, some, List, [], ◌∷◌, ◌++◌, ◌==◌,
  if◌then◌else◌, coalesce, is_truthy, truthy_or, ◌<+>◌,
}
use go_analyze.Config.{config, oidc_redirect_uri}
use go_analyze.Platform.{
  Storage, get_item, remove_item, Room, try_set_item, is_ok_status, Form, FetchReply, rejected,
  replied,
}
use go_analyze.Auth.Base64Url.{base64_url_encode, random_string}
use go_analyze.Auth.Tokens.{
  pkce_verifier_key, auth_state_key, post_login_redirect_key, discovery_urls, get_stored_tokens,
  store_tokens, clear_tokens, tokens_of, AuthEnv, TokenData,
}

-- A URL that the page is sent to: the address before the `?`, and the query.
pub record Redirect : Type 0 where
  pub address : String
  pub query : Form

-- What the flow takes from the browser's cryptography.
pub record Crypto : Type 0 where
  pub sha256 : String → List ℕ
  pub btoa : List ℕ → String

-- The query of the authorization request, for a state and a code challenge.
unfoldable pub authorization_query : AuthEnv → String → String → Form
authorization_query env state challenge =
    ("client_id", env.config.keycloak_client_id)
    ∷ ("redirect_uri", oidc_redirect_uri (some env.origin))
    ∷ ("response_type", "code")
    ∷ ("scope", "openid profile email")
    ∷ ("state", state)
    ∷ ("code_challenge", challenge)
    ∷ ("code_challenge_method", "S256")
    ∷ []

-- The three writes of `login`, in order. The second component is false if one of them throws.
unfoldable pub store_login : Room → String → String → String → Storage → Storage × Bool
store_login room verifier state redirect_after s =
    elim (try_set_item room pkce_verifier_key verifier s) [
      | none ↦ (s, false)
      | some s₁ ↦ elim (try_set_item room auth_state_key state s₁) [
        | none ↦ (s₁, false)
        | some s₂ ↦ elim (try_set_item room post_login_redirect_key redirect_after s₂) [
          | none ↦ (s₂, false)
          | some s₃ ↦ (s₃, true)
        ]
      ]
    ]

-- `login`, on the random bytes of its two draws; no redirect if a write throws.
unfoldable pub login :
    AuthEnv → Crypto → List ℕ → List ℕ → String → Storage → Storage × Option Redirect
login env crypto verifier_bytes state_bytes redirect_after s =
    let verifier = random_string crypto.btoa verifier_bytes 64 in
    let challenge = base64_url_encode crypto.btoa (crypto.sha256 verifier) in
    let state = random_string crypto.btoa state_bytes 24 in
    let (s', stored) = store_login env.room verifier state redirect_after s in
    let url : Redirect = record {
      address = (discovery_urls env.config).authorization_endpoint;
      query = authorization_query env state challenge;
    } in
    (s', if stored then some url else none)

-- The four messages of `completeLogin`; `threw` is an exception that it lets through.
pub data LoginResult : Type 0 where
  logged_in : LoginResult
  invalid_state : LoginResult
  unreachable : LoginResult
  refused : ℕ → LoginResult
  threw : LoginResult

unfoldable pub code_form : AuthEnv → String → String → Form
code_form env code verifier =
    ("grant_type", "authorization_code")
    ∷ ("client_id", env.config.keycloak_client_id)
    ∷ ("redirect_uri", oidc_redirect_uri (some env.origin))
    ∷ ("code", code)
    ∷ ("code_verifier", verifier)
    ∷ []

-- `!verifier || !expectedState || state !== expectedState` is false.
abbrev pub state_accepted : Option String → Option String → String → Bool
state_accepted verifier expected state =
    is_truthy verifier && (is_truthy expected && (state == coalesce expected ""))

-- The answer to the code, seen at `now` with the storage that the wait has left.
unfoldable pub settle_login : AuthEnv → ℕ → Storage → FetchReply TokenData → LoginResult × Storage
settle_login env now s rejected = (unreachable, s)
settle_login env now s (replied status body) =
    if is_ok_status status
    then elim body [
      | none ↦ (threw, s)
      | some d ↦ elim (store_tokens env (tokens_of none now d) s) [
        | none ↦ (threw, s)
        | some s' ↦ (logged_in, remove_item auth_state_key (remove_item pkce_verifier_key s'))
      ]
    ]
    else (refused status, s)

-- The result, the storage that it leaves, and the forms that it sent.
pub record Completed : Type 0 where
  pub result : LoginResult
  pub session : Storage
  pub sent : List Form

module _ (env : AuthEnv) (endpoint : Form → FetchReply TokenData)
    (meanwhile : Storage → Storage) where
  unfoldable pub complete_login : ℕ → String → String → Storage → Completed
  unfolding code_form settle_login
  complete_login now code state s =
      let expected = get_item auth_state_key s in
      let verifier = get_item pkce_verifier_key s in
      let form = code_form env code (coalesce verifier "") in
      let (result, s') = settle_login env now (meanwhile s) (endpoint form) in
      if state_accepted verifier expected state
      then record { result = result; session = s'; sent = form ∷ [] }
      else record { result = invalid_state; session = s; sent = [] }

unfoldable pub consume_post_login_redirect : Storage → String × Storage
consume_post_login_redirect s = (
  truthy_or (get_item post_login_redirect_key s) "/dashboard",
  remove_item post_login_redirect_key s,
)

-- `logout`: the storage it leaves, and where it sends the browser. `none` is the server.
unfoldable pub logout : AuthEnv → Option Storage → Option Storage × Option Redirect
unfolding get_stored_tokens clear_tokens discovery_urls
logout env w =
    let id_token : Option String = elim (get_stored_tokens env w) [
      | none ↦ none
      | some tokens ↦ tokens.id_token
    ] in
    let home : String = elim w [ none ↦ "" | some _ ↦ env.origin <+> "/login" ] in
    let base : Form =
      ("client_id", env.config.keycloak_client_id) ∷ ("post_logout_redirect_uri", home) ∷ [] in
    let query =
      if is_truthy id_token then base ++ ("id_token_hint", coalesce id_token "") ∷ [] else base in
    let url : Redirect = record {
      address = (discovery_urls env.config).end_session_endpoint;
      query = query;
    } in
    (clear_tokens w, elim w [ none ↦ none | some _ ↦ some url ])
