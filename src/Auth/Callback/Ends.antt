-- ===== src/Auth/Callback/Ends.antt =====
-- frontend/app/login/callback/page.tsx: how the page ends.
use go_analyze.Prelude.{
  ℕ, String, ◌≡◌, refl, sym, ap, inl, inr, false, ◌&&◌, none, some, arith, Bool-cases, coalesce,
  is_truthy, truthy_or, some_of_truthy, and_true,
}
use go_analyze.Platform.{
  Storage, get_item, remove_item, get_item-remove_item_self, Form, FetchReply,
}
use go_analyze.Auth.Tokens.{post_login_redirect_key, AuthEnv, TokenData}
use go_analyze.Auth.Login.{
  complete_login, consume_post_login_redirect, LoginResult, logged_in, threw,
}
use go_analyze.Auth.Callback.{after_login, callback_effect, CallbackParams, goes_to}

consumed_target :
    (s s' : Storage) (to : String)
    → consume_post_login_redirect s ≡ (to, s')
    → to ≡ truthy_or (get_item post_login_redirect_key s) "/dashboard"
unfolding consume_post_login_redirect
consumed_target s s' to h = ground arith

consumed_gone :
    (s s' : Storage) (to : String)
    → consume_post_login_redirect s ≡ (to, s')
    → get_item post_login_redirect_key s' ≡ none
unfolding consume_post_login_redirect
consumed_gone s s' to h =
    let e : s' ≡ remove_item post_login_redirect_key s =
      sym (ap (λ (p : String × Storage). p.1) h) in
    rw e (get_item-remove_item_self post_login_redirect_key s)

module _ (env : AuthEnv) (endpoint : Form → FetchReply TokenData)
    (meanwhile : Storage → Storage) where
  -- What has happened if the page goes on to an address.
  pub record HasEntered (now : ℕ) (p : CallbackParams) (s : Storage) (to : String) (s' : Storage)
      : Type 0 where
    pub no_error : is_truthy p.error_param ≡ false
    pub code : String
    pub state : String
    pub code_given : p.code_param ≡ some code
    pub state_given : p.state_param ≡ some state
    pub ended : (complete_login env endpoint meanwhile now code state s).result ≡ logged_in
    pub target :
        to
        ≡ truthy_or
            (get_item post_login_redirect_key
              (complete_login env endpoint meanwhile now code state s).session)
            "/dashboard"
    pub consumed : get_item post_login_redirect_key s' ≡ none

  after_login-goes_to :
      (r : LoginResult) (s s' : Storage) (to : String)
      → after_login r s ≡ (goes_to to, s')
      → (r ≡ logged_in) × (consume_post_login_redirect s ≡ (to, s'))
  unfolding after_login
  after_login-goes_to logged_in s s' to h = (refl, ground arith)
  after_login-goes_to threw s s' to h = ground arith
  after_login-goes_to r s s' to h = ground arith

  -- The page leaves for an address only if the provider reported no error, code and state are there
  -- and the login ended well; the address is the stored one or the dashboard, and it is used up.
  pub callback_effect-HasEntered :
      (now : ℕ) (p : CallbackParams) (s s' : Storage) (to : String)
      → callback_effect env endpoint meanwhile now p s ≡ (goes_to to, s')
      → HasEntered now p s to s'
  unfolding callback_effect
  callback_effect-HasEntered now p s s' to h = elim (Bool-cases (is_truthy p.error_param)) [
    | inl reported ↦ ground arith
    | inr fine ↦ elim (Bool-cases (is_truthy p.code_param && is_truthy p.state_param)) [
      | inr missing ↦ ground arith
      | inl given ↦
          let code = coalesce p.code_param "" in
          let state = coalesce p.state_param "" in
          let c = complete_login env endpoint meanwhile now code state s in
          let (ended, used) = after_login-goes_to c.result c.session s' to (ground arith) in
          let (has_code, has_state) = and_true _ _ given in
          record {
            no_error = fine;
            code = code;
            state = state;
            code_given = some_of_truthy p.code_param has_code;
            state_given = some_of_truthy p.state_param has_state;
            ended = ended;
            target = consumed_target c.session s' to used;
            consumed = consumed_gone c.session s' to used;
          }
    ]
  ]
