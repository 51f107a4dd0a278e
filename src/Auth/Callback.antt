-- ===== src/Auth/Callback.antt =====
-- frontend/app/login/callback/page.tsx: what the page does with the parameters of its address.
pub mod Ends
use go_analyze.Prelude.{
  ℕ, String, not, ◌&&◌, Option, if◌then◌else◌, coalesce, is_truthy, truthy_or, ◌<+>◌,
}
use go_analyze.Platform.{Storage, Form, FetchReply}
use go_analyze.Auth.Tokens.{AuthEnv, TokenData}
use go_analyze.Auth.Login.{
  complete_login, consume_post_login_redirect, LoginResult, logged_in, threw,
}

pub record CallbackParams : Type 0 where
  pub code_param : Option String
  pub state_param : Option String
  pub error_param : Option String
  pub error_description : Option String

-- What the page ends in: it shows an error, it goes on to an address, or it stays at
-- "Completing sign-in…" because the promise was rejected and nothing catches that.
pub data CallbackEnd : Type 0 where
  shows : String → CallbackEnd
  shows_result : LoginResult → CallbackEnd
  goes_to : String → CallbackEnd
  stays_loading : CallbackEnd

-- The continuation of `completeLogin`.
unfoldable pub after_login : LoginResult → Storage → CallbackEnd × Storage
after_login logged_in s = let (target, s') = consume_post_login_redirect s in (goes_to target, s')
after_login threw s = (stays_loading, s)
after_login r s = (shows_result r, s)

module _ (env : AuthEnv) (endpoint : Form → FetchReply TokenData)
    (meanwhile : Storage → Storage) where
  unfoldable pub callback_effect : ℕ → CallbackParams → Storage → CallbackEnd × Storage
  callback_effect now p s =
      let done =
        complete_login env endpoint meanwhile now (coalesce p.code_param "")
          (coalesce p.state_param "") s in
      let message =
        truthy_or p.error_description
          ("Keycloak returned an error: " <+> coalesce p.error_param "") in
      if is_truthy p.error_param
      then (shows message, s)
      else if not (is_truthy p.code_param && is_truthy p.state_param)
      then (shows "Missing authorization code. Please try signing in again.", s)
      else after_login done.result done.session
