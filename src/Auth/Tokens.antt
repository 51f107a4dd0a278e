-- ===== src/Auth/Tokens.antt =====
-- frontend/lib/auth.ts: the stored tokens.
use go_analyze.Prelude.{
  ℕ, ◌-◌, ◌+◌, ◌*◌, code, String, Bool, true, ◌&&◌, Option, none, some, is_empty, if◌then◌else◌,
  leb, coalesce, nat_eq, ◌<+>◌,
}
use mathlib.Core.Option as O
use go_analyze.Config.{Config}
use go_analyze.Platform.{Storage, Room, get_item, try_set_item, remove_item}

abbrev pub token_storage_key : String
token_storage_key = "goanalyze_auth_tokens"

abbrev pub pkce_verifier_key : String
pkce_verifier_key = "goanalyze_pkce_verifier"

abbrev pub auth_state_key : String
auth_state_key = "goanalyze_oauth_state"

abbrev pub post_login_redirect_key : String
post_login_redirect_key = "goanalyze_post_login_redirect"

pub record StoredTokens : Type 0 where
  pub access_token : String
  pub refresh_token : Option String
  pub id_token : Option String
  pub expires_at : ℕ  -- epoch ms
  pub token_type : String

-- What the flow takes from its surroundings. `stringify` and `parse` are `JSON.stringify` and
-- `JSON.parse` at the type of the tokens, with `none` for an exception.
pub record AuthEnv : Type 0 where
  pub config : Config
  pub origin : String  -- `window.location.origin`
  pub stringify : StoredTokens → String
  pub parse : String → Option StoredTokens
  pub room : Room

-- `.replace(/\/$/, "")`.
unfoldable pub strip_slash : String → String
strip_slash String.[] = ""
strip_slash (String.◌∷◌ c s) =
    let rest = String.◌∷◌ c (strip_slash s) in
    if is_empty s && nat_eq (code c) b'/' then "" else rest

pub record DiscoveryUrls : Type 0 where
  pub authorization_endpoint : String
  pub token_endpoint : String
  pub end_session_endpoint : String

unfoldable pub discovery_urls : Config → DiscoveryUrls
unfolding strip_slash
discovery_urls c =
    let issuer = strip_slash c.keycloak_issuer in
    record {
      authorization_endpoint = issuer <+> "/protocol/openid-connect/auth";
      token_endpoint = issuer <+> "/protocol/openid-connect/token";
      end_session_endpoint = issuer <+> "/protocol/openid-connect/logout";
    }

-- `none` is the server, where there is no window.
unfoldable pub get_stored_tokens : AuthEnv → Option Storage → Option StoredTokens
get_stored_tokens env none = none
get_stored_tokens env (some s) = elim (get_item token_storage_key s) [
  | none ↦ none
  | some raw ↦ if is_empty raw then none else env.parse raw
]

-- `none` is the exception that `setItem` may throw.
unfoldable pub store_tokens : AuthEnv → StoredTokens → Storage → Option Storage
store_tokens env tokens s = try_set_item env.room token_storage_key (env.stringify tokens) s

unfoldable pub clear_tokens : Option Storage → Option Storage
clear_tokens w = O.map (remove_item token_storage_key) w

-- On ℕ `expires_at - 30000` stops at 0, where the test holds as it does below 0.
unfoldable pub is_token_expired : ℕ → Option StoredTokens → Bool
is_token_expired now none = true
is_token_expired now (some tokens) = leb (tokens.expires_at - 30000) now

-- The body of a successful answer of the token endpoint.
pub record TokenData : Type 0 where
  pub access_token : String
  pub refresh_token : Option String
  pub id_token : Option String
  pub token_type : Option String
  pub expires_in : Option ℕ

-- The object that `completeLogin` and `refreshTokens` store; `kept` is the refresh token that
-- stands in for one that the answer leaves out.
unfoldable pub tokens_of : Option String → ℕ → TokenData → StoredTokens
tokens_of kept now d = record {
  access_token = d.access_token;
  refresh_token = elim d.refresh_token [ none ↦ kept | some r ↦ some r ];
  id_token = d.id_token;
  token_type = coalesce d.token_type "Bearer";
  expires_at = now + coalesce d.expires_in 300 * 1000;
}
