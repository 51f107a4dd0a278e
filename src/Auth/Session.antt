-- ===== src/Auth/Session.antt =====
-- frontend/hooks/useAuth.ts, the guard of frontend/components/layout/AppShell.tsx, the start page
-- frontend/app/page.tsx and the sign-in page frontend/app/login/page.tsx.
pub mod Guard
use go_analyze.Prelude.{
  ℕ, String, Bool, true, false, not, ◌&&◌, Option, none, some, List, [], ◌==◌, if◌then◌else◌,
  coalesce, is_some, is_truthy, truthy_or, ◌<+>◌,
}
use go_analyze.Platform.{Storage, Form, FetchReply}
use go_analyze.Auth.Tokens.{get_stored_tokens, AuthEnv, TokenData}
use go_analyze.Auth.Refresh.{refresh_tokens, is_authenticated}

-- The state of `useAuth`. `User` is what `getCurrentUser` decodes from the access token.
pub record AuthState (User : Type 0) : Type 0 where
  pub ready : Bool
  pub authenticated : Bool
  pub user : Option User

module _ {User : Type 0} where
  unfoldable pub initial_auth : AuthState User
  initial_auth = record { ready = false; authenticated = false; user = none }

  module _ (decode_jwt : String → Option User) (env : AuthEnv) where
    unfoldable pub get_current_user : Option Storage → Option User
    get_current_user w = elim (get_stored_tokens env w) [
      | none ↦ none
      | some tokens ↦ decode_jwt tokens.access_token
    ]

    module _ (endpoint : Form → FetchReply TokenData) (meanwhile : Storage → Storage) where
      -- `refresh` of the hook: the state it sets, the storage, and the forms sent.
      unfoldable pub refresh_auth : ℕ → ℕ → Storage → AuthState User × Storage × List Form
      refresh_auth now later s =
          let r = refresh_tokens env endpoint meanwhile later s in
          let fresh : AuthState User = record {
            ready = true;
            authenticated = true;
            user = get_current_user (some s);
          } in
          let renewed : AuthState User = record {
            ready = true;
            authenticated = is_some r.tokens;
            user = if is_some r.tokens then get_current_user (some r.session) else none;
          } in
          if is_authenticated env now (some s) then (fresh, s, []) else (renewed, r.session, r.sent)

-- What the shell shows.
pub data ShellView : Type 0 where
  checking_session redirecting protected_content : ShellView

abbrev pub shell_view : Bool → Bool → ShellView
shell_view ready authenticated =
    if not ready
    then checking_session
    else if not authenticated
    then redirecting
    else protected_content

-- The address that the effect of the shell replaces the page by. `encode` is
-- `encodeURIComponent`; the path may be missing.
unfoldable pub shell_redirect : (String → String) → Bool → Bool → Option String → Option String
shell_redirect encode ready authenticated pathname =
    let path = coalesce pathname "" in
    let target =
      if is_truthy pathname && not (path == "/") then "?redirect=" <+> encode path else "" in
    if ready && not authenticated then some ("/login" <+> target) else none

-- The effect of the start page.
unfoldable pub root_redirect : Bool → Bool → Option String
root_redirect ready authenticated =
    if not ready then none else some (if authenticated then "/dashboard" else "/login")

-- The effect of the sign-in page, on the parameter `redirect` of its address.
unfoldable pub login_redirect : Bool → Bool → Option String → Option String
login_redirect ready authenticated redirect =
    if ready && authenticated then some (truthy_or redirect "/dashboard") else none
