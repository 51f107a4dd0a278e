-- ===== src/Tests/SessionRuns.antt =====
-- frontend/hooks/useAuth.ts and the pages of the sign-in: the theorems at concrete inputs.
use go_analyze.Auth.Base64Url.{url_char, strip_padding, base64_url_encode, random_string}
use go_analyze.Auth.Callback.{after_login, callback_effect, goes_to}
use go_analyze.Auth.Callback.Ends.{callback_effect-HasEntered, HasEntered}
use go_analyze.Auth.Journey.{returned_params, shell_redirect-callback_effect}
use go_analyze.Auth.Login.{
  store_login, login, settle_login, complete_login, consume_post_login_redirect,
}
use go_analyze.Auth.Refresh.{refresh_tokens, is_authenticated}
use go_analyze.Auth.Session.{
  initial_auth, refresh_auth, shell_view, shell_redirect, protected_content,
}
use go_analyze.Auth.Tokens.{store_tokens}
use go_analyze.Ui.{Item, paragraph, loading_block}
use go_analyze.Pages.Screens.{app_shell}
use go_analyze.Pages.Screens.Guarded.{app_shell-refresh_auth}
use go_analyze.Pages.Shell.{click_login}
use go_analyze.Platform.{get_item, set_item, remove_item, empty_storage, try_set_item}
use go_analyze.Prelude.{
  String, ◌≡◌, refl, ◌||◌, Option, none, some, List, [], ◌∷◌, arith, ◌==◌, if◌then◌else◌, is_some,
  ◌<+>◌,
}
use go_analyze.Tests.AuthRuns.{
  answer, env, grants, refuses, unchanged, waiting, entered, crypto, sent_away, granted-IsJson,
}

callback_effect-HasEntered_example :
    HasEntered env grants unchanged 20000
      (record {
        code_param = some "code";
        state_param = some "AAAA";
        error_param = none;
        error_description = none;
      })
      waiting
      "/cases"
      (consume_post_login_redirect entered.session).1
unfolding callback_effect after_login consume_post_login_redirect complete_login settle_login
    store_tokens try_set_item get_item set_item remove_item
callback_effect-HasEntered_example =
    callback_effect-HasEntered env grants unchanged 20000
      (record {
        code_param = some "code";
        state_param = some "AAAA";
        error_param = none;
        error_description = none;
      })
      waiting (consume_post_login_redirect entered.session).1 "/cases" refl

abbrev page : List Item
page = paragraph "Cases" ∷ []

app_shell-refresh_auth_example :
    let b = initial_auth {User = String} in
    let a =
      (refresh_auth {User = String}
        (λ t. some t)
        env
        refuses
        unchanged
        20000
        20000
        empty_storage).0 in
    let signed_in =
      is_authenticated env 20000 (some empty_storage)
      || is_some (refresh_tokens env refuses unchanged 20000 empty_storage).tokens in
    (app_shell b.ready b.authenticated page ≡ loading_block "Checking your session…" ∷ [])
    × (shell_redirect (λ s. s) b.ready b.authenticated (some "/cases") ≡ none)
    × (app_shell a.ready a.authenticated page
        ≡ (if signed_in then page else loading_block "Redirecting to sign-in…" ∷ []))
    × (shell_redirect (λ s. s) a.ready a.authenticated (some "/cases")
        ≡ (if signed_in then none else some ("/login" <+> ("?redirect=" <+> "/cases"))))
app_shell-refresh_auth_example =
    app_shell-refresh_auth (λ t. some t) env refuses unchanged (λ s. s) 20000 20000 empty_storage
      "/cases" page refl refl

abbrev redirect_param : String → Option String
redirect_param address = if address == "/login?redirect=%2Fcases" then some "/cases" else none

abbrev encode : String → String
encode path = if path == "/cases" then "%2Fcases" else path

shell_redirect-callback_effect_example :
    let r = callback_effect env grants unchanged 20000 (returned_params "code" "AAAA") waiting in
    let a = refresh_auth {User = String} (λ t. some t) env grants unchanged 49999 50000 r.1 in
    (r.0 ≡ goes_to "/cases")
    × (shell_view a.0.ready a.0.authenticated ≡ protected_content)
    × (a.1 ≡ r.1)
    × (a.2 ≡ [])
unfolding login store_login try_set_item random_string base64_url_encode strip_padding url_char
    shell_redirect click_login
shell_redirect-callback_effect_example =
    shell_redirect-callback_effect env crypto (0 ∷ []) (0 ∷ []) grants unchanged (λ t. some t)
      encode redirect_param 20000 200 49999 50000 answer "code" "/cases" "/login?redirect=%2Fcases"
      "/cases" empty_storage waiting sent_away refl refl refl refl refl refl refl refl refl
      granted-IsJson refl refl refl refl (omega arith)
