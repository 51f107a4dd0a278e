-- ===== src/Pages/Screens/Guarded.antt =====
-- frontend/components/layout/AppShell.tsx with frontend/hooks/useAuth.ts: when the content of a page
-- is shown.
use go_analyze.Prelude.{
  ℕ, String, ◌≡◌, refl, ap, ◌∙◌, Bool, true, false, ◌||◌, Option, none, some, List, [], ◌∷◌, ◌==◌,
  if◌then◌else◌, is_some, is_empty, ◌<+>◌,
}
use go_analyze.Platform.{Storage, Form, FetchReply}
use go_analyze.Ui.{Item, loading_block}
use go_analyze.Auth.Tokens.{AuthEnv, TokenData}
use go_analyze.Auth.Refresh.{refresh_tokens, is_authenticated}
use go_analyze.Auth.Session.{
  initial_auth, refresh_auth, shell_view, shell_redirect, ShellView, checking_session, redirecting,
  protected_content,
}
use go_analyze.Auth.Session.Guard.{refresh_auth-shell}
use go_analyze.Pages.Screens.{app_shell}

-- What the shell shows around the content, by the kind of its view.
shown_by : ShellView → List Item → List Item
shown_by checking_session children = loading_block "Checking your session…" ∷ []
shown_by redirecting children = loading_block "Redirecting to sign-in…" ∷ []
shown_by protected_content children = children

app_shell-shown_by :
    (ready authenticated : Bool) (children : List Item)
    → app_shell ready authenticated children ≡ shown_by (shell_view ready authenticated) children
unfolding app_shell shown_by
app_shell-shown_by false authenticated children = refl
app_shell-shown_by true false children = refl
app_shell-shown_by true true children = refl

shown_by_choice :
    (b : Bool) (children : List Item)
    → shown_by (if b then protected_content else redirecting) children
      ≡ (if b then children else loading_block "Redirecting to sign-in…" ∷ [])
unfolding shown_by
shown_by_choice true children = refl
shown_by_choice false children = refl

module _ {User : Type 0} (decode_jwt : String → Option User) (env : AuthEnv)
    (endpoint : Form → FetchReply TokenData) (meanwhile : Storage → Storage)
    (encode : String → String) where
  -- Nothing of a page inside of the shell is shown before the check of the session has ended. After it the
  -- page is shown, and no redirect made, exactly if the stored tokens are good or the refresh brought
  -- tokens; otherwise only a notice is shown, and the page is redirected to the sign-in page with the
  -- path to come back to, for a path that is not empty and not "/".
  pub app_shell-refresh_auth :
      (now later : ℕ) (s : Storage) (path : String) (children : List Item)
      → is_empty path ≡ false
      → (path == "/") ≡ false
      → let b = initial_auth {User = User} in
        let a = (refresh_auth decode_jwt env endpoint meanwhile now later s).0 in
        let signed_in =
          is_authenticated env now (some s)
          || is_some (refresh_tokens env endpoint meanwhile later s).tokens in
        (app_shell b.ready b.authenticated children ≡ loading_block "Checking your session…" ∷ [])
        × (shell_redirect encode b.ready b.authenticated (some path) ≡ none)
        × (app_shell a.ready a.authenticated children
            ≡ (if signed_in then children else loading_block "Redirecting to sign-in…" ∷ []))
        × (shell_redirect encode a.ready a.authenticated (some path)
            ≡ (if signed_in then none else some ("/login" <+> ("?redirect=" <+> encode path))))
  unfolding initial_auth app_shell shell_redirect
  app_shell-refresh_auth now later s path children full inner =
      let (view, redirect, _) =
        refresh_auth-shell decode_jwt env endpoint meanwhile encode now later s path full inner in
      let a = (refresh_auth decode_jwt env endpoint meanwhile now later s).0 in
      let signed_in =
        is_authenticated env now (some s)
        || is_some (refresh_tokens env endpoint meanwhile later s).tokens in
      (
        refl,
        refl,
        app_shell-shown_by a.ready a.authenticated children
            ∙ ap (λ (v : ShellView). shown_by v children) view
            ∙ shown_by_choice signed_in children,
        redirect,
      )
