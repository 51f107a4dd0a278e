-- ===== src/Auth/Journey.antt =====
-- The way of a visitor who is not signed in: frontend/components/layout/AppShell.tsx sends the page
-- to frontend/app/login/page.tsx, `login` of frontend/lib/auth.ts to the identity provider, and
-- frontend/app/login/callback/page.tsx back to the page that was asked for.
use go_analyze.Auth.Refresh.Stored.{IsJson}
use go_analyze.Auth.Login.RoundTrip.{HasLogin-accepted, login-HasLogin, login-complete_login_drawn}
use go_analyze.Auth.Session.{refresh_auth, shell_view, shell_redirect, protected_content}
use go_analyze.Auth.Session.Guard.{redirected}
use go_analyze.Pages.Shell.{click_login}
use go_analyze.Prelude.{
  ℕ, ◌+◌, ◌*◌, ◌<◌, code, String, ◌≡◌, refl, ap, ◌∙◌, true, false, Option, none, some, List, [],
  arith, ◌==◌, coalesce, is_empty, ◌<+>◌,
}
use go_analyze.Platform.{
  Storage, get_item, set_item, remove_item, try_set_item, get_item-set_item_ne,
  get_item-remove_item_ne, is_ok_status, Form, FetchReply, replied,
}
use go_analyze.Auth.Tokens.{
  token_storage_key, pkce_verifier_key, auth_state_key, post_login_redirect_key, get_stored_tokens,
  store_tokens, is_token_expired, tokens_of, StoredTokens, AuthEnv, TokenData,
}
use go_analyze.Auth.Refresh.{is_authenticated}
use go_analyze.Auth.Login.{
  login, code_form, state_accepted, settle_login, complete_login, consume_post_login_redirect,
  Redirect, Crypto, logged_in,
}
use go_analyze.Auth.Login.Flow.{settle_login-IsSettled, logged_in_pair, complete_login_accepted}
use go_analyze.Auth.Base64Url.{random_string}
use go_analyze.Auth.Callback.{after_login, callback_effect, CallbackParams, goes_to}

-- The parameters with which the identity provider sends the browser back after it signed somebody in.
abbrev pub returned_params : String → String → CallbackParams
returned_params code state = record {
  code_param = some code;
  state_param = some state;
  error_param = none;
  error_description = none;
}

get_item-redirect_kept :
    (env : AuthEnv) (t : StoredTokens) (s s' : Storage)
    → store_tokens env t s ≡ some s'
    → get_item post_login_redirect_key
        (remove_item auth_state_key (remove_item pkce_verifier_key s'))
      ≡ get_item post_login_redirect_key s
unfolding store_tokens try_set_item
get_item-redirect_kept env t s s' h =
    let e : s' ≡ set_item token_storage_key (env.stringify t) s = ground arith in
    get_item-remove_item_ne auth_state_key post_login_redirect_key
      (remove_item pkce_verifier_key s') refl
    ∙ get_item-remove_item_ne pkce_verifier_key post_login_redirect_key s' refl
    ∙ ap (get_item post_login_redirect_key) e
    ∙ get_item-set_item_ne token_storage_key post_login_redirect_key (env.stringify t) s refl

module _ (env : AuthEnv) (endpoint : Form → FetchReply TokenData)
    (meanwhile : Storage → Storage) where
  -- A login that ended well leaves the address to go on to as the wait has left it.
  complete_login-redirect_kept :
      (now : ℕ) (code state : String) (s : Storage)
      → (complete_login env endpoint meanwhile now code state s).result ≡ logged_in
      → state_accepted (get_item pkce_verifier_key s) (get_item auth_state_key s) state ≡ true
      → get_item post_login_redirect_key
          (complete_login env endpoint meanwhile now code state s).session
        ≡ get_item post_login_redirect_key (meanwhile s)
  complete_login-redirect_kept now code state s h good =
      let same = complete_login_accepted env endpoint meanwhile now code state s good in
      let form = code_form env code (coalesce (get_item pkce_verifier_key s) "") in
      let settled = settle_login env now (meanwhile s) (endpoint form) in
      let g =
        settle_login-IsSettled env now (meanwhile s) (endpoint form) settled.1
          (logged_in_pair settled (cc (same, h))) in
      rw (same, g.session)
        (get_item-redirect_kept env (tokens_of none now g.answer) (meanwhile s) g.stored g.kept)

  callback_effect-goes_to :
      (now : ℕ) (code state p : String) (s : Storage)
      → is_empty code ≡ false
      → is_empty state ≡ false
      → is_empty p ≡ false
      → let c = complete_login env endpoint meanwhile now code state s in
        c.result ≡ logged_in
        → get_item post_login_redirect_key c.session ≡ some p
        → callback_effect env endpoint meanwhile now (returned_params code state) s
          ≡ (goes_to p, remove_item post_login_redirect_key c.session)
  unfolding callback_effect after_login consume_post_login_redirect
  callback_effect-goes_to now code state p s full full' full'' h e =
      rw (full, full', h, after_login, e, full'')

is_authenticated-consumed :
    (env : AuthEnv) (t : ℕ) (s : Storage)
    → is_authenticated env t (some s) ≡ true
    → is_authenticated env t (some (remove_item post_login_redirect_key s)) ≡ true
unfolding is_authenticated get_stored_tokens is_token_expired get_item remove_item
is_authenticated-consumed env t s h =
    rw (is_authenticated, get_item-remove_item_ne post_login_redirect_key token_storage_key s refl)
      h

refresh_auth_fresh :
    {User : Type 0} (decode_jwt : String → Option User) (env : AuthEnv)
    (endpoint : Form → FetchReply TokenData) (meanwhile : Storage → Storage) (now later : ℕ)
    (s : Storage)
    → is_authenticated env now (some s) ≡ true
    → let r = refresh_auth decode_jwt env endpoint meanwhile now later s in
      (shell_view r.0.ready r.0.authenticated ≡ protected_content) × (r.1 ≡ s) × (r.2 ≡ [])
unfolding refresh_auth
refresh_auth_fresh decode_jwt env endpoint meanwhile now later s h = rw h (refl, refl, refl)

asked_for :
    (encode : String → String) (redirect_param : String → Option String) (p address after : String)
    → is_empty p ≡ false
    → (p == "/") ≡ false
    → redirect_param ("/login" <+> ("?redirect=" <+> encode p)) ≡ some p
    → shell_redirect encode true false (some p) ≡ some address
    → click_login (redirect_param address) false ≡ (true, some after)
    → after ≡ p
unfolding click_login
asked_for encode redirect_param p address after full inner recovers away clicked =
    let e : address ≡ "/login" <+> ("?redirect=" <+> encode p) =
      cc (redirected encode p full inner, away) in
    let c : click_login (some p) false ≡ (true, some after) =
      rw (ap redirect_param e ∙ recovers) at clicked in
    ground (arith, c)

module _ (env : AuthEnv) (crypto : Crypto) (verifier_bytes state_bytes : List ℕ)
    (endpoint : Form → FetchReply TokenData) (meanwhile : Storage → Storage) {User : Type 0}
    (decode_jwt : String → Option User) where
  -- What a login that goes back to `p` ends in.
  returned :
      (now status t later : ℕ) (d : TokenData) (code p : String) (s s' : Storage) (url : Redirect)
      → let verifier = random_string crypto.btoa verifier_bytes 64 in
        let state = random_string crypto.btoa state_bytes 24 in
        IsJson env (tokens_of none now d)
        → is_empty p ≡ false
        → is_empty code ≡ false
        → login env crypto verifier_bytes state_bytes p s ≡ (s', some url)
        → is_empty verifier ≡ false
        → is_empty state ≡ false
        → endpoint (code_form env code verifier) ≡ replied status (some d)
        → is_ok_status status ≡ true
        → env.room (meanwhile s') token_storage_key (env.stringify (tokens_of none now d)) ≡ true
        → get_item post_login_redirect_key (meanwhile s') ≡ get_item post_login_redirect_key s'
        → t + 30000 < now + coalesce d.expires_in 300 * 1000
        → let r = callback_effect env endpoint meanwhile now (returned_params code state) s' in
          (r.0 ≡ goes_to p) × (is_authenticated env t (some r.1) ≡ true)
  returned now status t later d code p s s' url json full named h v w answered ok space kept soon =
      let state = random_string crypto.btoa state_bytes 24 in
      let c = complete_login env endpoint meanwhile now code state s' in
      let (ended, signed, target) =
        login-complete_login_drawn env crypto verifier_bytes state_bytes p endpoint meanwhile now
          status t d code s s' url json h v w answered ok space soon in
      let has = (login-HasLogin env crypto verifier_bytes state_bytes p s s' url h).0 in
      let stored =
        complete_login-redirect_kept env endpoint meanwhile now code state s' ended
          (HasLogin-accepted has v w)
        ∙ kept
        ∙ has.redirect_stored in
      rw
        (callback_effect-goes_to env endpoint meanwhile now code state p s' named w full ended
          stored)
        (refl, is_authenticated-consumed env t c.session signed)

  -- Somebody who is not signed in and asks for a path that is not empty and not "/" comes back to it:
  -- the shell sends the page to an address whose parameter `redirect` gives the path again, a click on
  -- the sign-in page starts a login, which sends the browser away, and if the provider sends it back
  -- with a code that is not empty and the state of that login, the endpoint accepts the code with the
  -- drawn verifier, the write of the tokens is accepted, they survive the way through JSON, and no
  -- other task touches the stored address during the request, then the callback page goes on to
  -- that path. There the shell shows the content and no form is sent, for as long as the token lasts,
  -- 30 s less.
  pub shell_redirect-callback_effect :
      (encode : String → String) (redirect_param : String → Option String) (now status t later : ℕ)
      (d : TokenData) (auth_code p address after : String) (s s' : Storage) (url : Redirect)
      → let verifier = random_string crypto.btoa verifier_bytes 64 in
        let state = random_string crypto.btoa state_bytes 24 in
        is_empty p ≡ false
        → (p == "/") ≡ false
        → redirect_param ("/login" <+> ("?redirect=" <+> encode p)) ≡ some p
        → shell_redirect encode true false (some p) ≡ some address
        → click_login (redirect_param address) false ≡ (true, some after)
        → login env crypto verifier_bytes state_bytes after s ≡ (s', some url)
        → is_empty auth_code ≡ false
        → is_empty verifier ≡ false
        → is_empty state ≡ false
        → IsJson env (tokens_of none now d)
        → endpoint (code_form env auth_code verifier) ≡ replied status (some d)
        → is_ok_status status ≡ true
        → env.room (meanwhile s') token_storage_key (env.stringify (tokens_of none now d)) ≡ true
        → get_item post_login_redirect_key (meanwhile s') ≡ get_item post_login_redirect_key s'
        → t + 30000 < now + coalesce d.expires_in 300 * 1000
        → let r = callback_effect env endpoint meanwhile now (returned_params auth_code state) s' in
          let a = refresh_auth decode_jwt env endpoint meanwhile t later r.1 in
          (r.0 ≡ goes_to p)
          × (shell_view a.0.ready a.0.authenticated ≡ protected_content)
          × (a.1 ≡ r.1)
          × (a.2 ≡ [])
  shell_redirect-callback_effect encode redirect_param now status t later d auth_code p address
        after s s' url full inner recovers away clicked h named v w json answered ok space kept
        soon =
      let back = asked_for encode redirect_param p address after full inner recovers away clicked in
      let r =
        callback_effect env endpoint meanwhile now
          (returned_params auth_code (random_string crypto.btoa state_bytes 24)) s' in
      let (there, signed) =
        returned now status t later d auth_code p s s' url json full named (rw back at h) v w
          answered ok space kept soon in
      let (shown, same, silent) =
        refresh_auth_fresh decode_jwt env endpoint meanwhile t later r.1 signed in
      (there, shown, same, silent)
