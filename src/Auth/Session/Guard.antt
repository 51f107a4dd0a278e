-- ===== src/Auth/Session/Guard.antt =====
-- frontend/hooks/useAuth.ts and frontend/components/layout/AppShell.tsx: who sees the content.
use go_analyze.Prelude.{
  ℕ, String, ◌≡◌, refl, inl, inr, true, false, ◌&&◌, ◌||◌, Option, none, some, arith, ◌==◌,
  if◌then◌else◌, Bool-cases, is_some, is_empty, ◌<+>◌,
}
use go_analyze.Platform.{Storage, Form, FetchReply}
use go_analyze.Auth.Tokens.{AuthEnv, TokenData}
use go_analyze.Auth.Refresh.{refresh_tokens, is_authenticated}
use go_analyze.Auth.Session.{
  refresh_auth, shell_view, shell_redirect, redirecting, protected_content,
}

pub redirected :
    (encode : String → String) (p : String)
    → is_empty p ≡ false
    → (p == "/") ≡ false
    → shell_redirect encode true false (some p) ≡ some ("/login" <+> ("?redirect=" <+> encode p))
unfolding shell_redirect
redirected encode p full root = rw (full, root)

module _ {User : Type 0} (decode_jwt : String → Option User) (env : AuthEnv)
    (endpoint : Form → FetchReply TokenData) (meanwhile : Storage → Storage)
    (encode : String → String) where
  refresh_auth_fields :
      (now later : ℕ) (s : Storage)
      → let a = (refresh_auth decode_jwt env endpoint meanwhile now later s).0 in
        let signed_in =
          is_authenticated env now (some s)
          || is_some (refresh_tokens env endpoint meanwhile later s).tokens in
        (a.ready ≡ true) × (a.authenticated ≡ signed_in) × (signed_in ≡ false → a.user ≡ none)
  unfolding refresh_auth
  refresh_auth_fields now later s = ground arith

  -- After the check of the session the shell shows the content and redirects nowhere if the stored
  -- tokens are good or the refresh brought tokens. Otherwise it shows no content, there is no user,
  -- and it redirects to the sign-in page with the path to come back to, for a path that is not empty
  -- and not "/".
  pub refresh_auth-shell :
      (now later : ℕ) (s : Storage) (path : String)
      → is_empty path ≡ false
      → (path == "/") ≡ false
      → let a = (refresh_auth decode_jwt env endpoint meanwhile now later s).0 in
        let signed_in =
          is_authenticated env now (some s)
          || is_some (refresh_tokens env endpoint meanwhile later s).tokens in
        (shell_view a.ready a.authenticated
          ≡ (if signed_in then protected_content else redirecting))
        × (shell_redirect encode a.ready a.authenticated (some path)
            ≡ (if signed_in then none else some ("/login" <+> ("?redirect=" <+> encode path))))
        × ((is_some a.user && signed_in) ≡ is_some a.user)
  refresh_auth-shell now later s path full inner =
      let (ready, same, nobody) = refresh_auth_fields now later s in
      let signed_in =
        is_authenticated env now (some s)
        || is_some (refresh_tokens env endpoint meanwhile later s).tokens in
      elim (Bool-cases signed_in) [
        | inl here ↦ rw (ready, same, here) (refl, unfold shell_redirect in refl, ground arith)
        | inr away ↦
            rw (ready, same, away, nobody away) (refl, redirected encode path full inner, refl)
      ]
