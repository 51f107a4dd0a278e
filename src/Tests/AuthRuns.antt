-- ===== src/Tests/AuthRuns.antt =====
-- frontend/lib/auth.ts and the pages around it: the theorems at concrete inputs.
use go_analyze.Prelude.{
  ℕ, ◌+◌, ◌*◌, String, ◌≡◌, refl, ◌⊎◌, true, false, Option, none, some, [], ◌∷◌, arith, ◌==◌,
  if◌then◌else◌, is_some, text_or, coalesce,
}
use go_analyze.Platform.{
  Storage, get_item, set_item, empty_storage, try_set_item, Form, FetchReply, replied,
}
use go_analyze.Config.{config}
use go_analyze.Auth.Tokens.{
  token_storage_key, pkce_verifier_key, auth_state_key, post_login_redirect_key, discovery_urls,
  get_stored_tokens, store_tokens, is_token_expired, tokens_of, StoredTokens, AuthEnv, TokenData,
}
use go_analyze.Auth.Refresh.{
  refresh_form, settle_refresh, refresh_tokens, get_valid_access_token, is_authenticated,
}
use go_analyze.Auth.Refresh.Laws.{
  get_valid_access_token_sound, refresh_tokens_stored, IsFresh, IsRenewed,
}
use go_analyze.Auth.Refresh.Race.{overlapping, overlapping-signed_out}
use go_analyze.Auth.Refresh.Stored.{IsJson}
use go_analyze.Auth.Login.{
  authorization_query, store_login, login, settle_login, complete_login,
  consume_post_login_redirect, Redirect, Crypto, logged_in, invalid_state, Completed,
}
use go_analyze.Auth.Login.Flow.{complete_login_sound, complete_login_once, IsLoggedIn}
use go_analyze.Auth.Login.RoundTrip.{login-complete_login, Requests}
use go_analyze.Api.Url.Query.{get_param}
use go_analyze.Auth.Base64Url.{url_char, strip_padding, base64_url_encode, random_string}

abbrev old_tokens : StoredTokens
old_tokens = record {
  access_token = "old";
  refresh_token = some "r1";
  id_token = none;
  expires_at = 40000;
  token_type = "Bearer";
}

abbrev pub answer : TokenData
answer = record {
  access_token = "new";
  refresh_token = none;
  id_token = none;
  token_type = none;
  expires_in = some 60;
}

-- The tokens that the answer gives at the time 20000, after a refresh and after a login.
abbrev renewed : StoredTokens
renewed = tokens_of (some "r1") 20000 answer

abbrev pub granted : StoredTokens
granted = tokens_of none 20000 answer

-- A JSON text is its access token, behind a mark for the kind of the tokens.
abbrev parse_tokens : String → Option StoredTokens
parse_tokens raw =
    if raw == "+old" then some old_tokens else if raw == "rnew" then some renewed else some granted

abbrev stringify_tokens : StoredTokens → String
stringify_tokens t =
    if t.access_token == "old" then "+old" else if is_some t.refresh_token then "rnew" else "gnew"

abbrev pub env : AuthEnv
env = record {
  config = config (λ _. none);
  origin = "http://localhost:3000";
  stringify = stringify_tokens;
  parse = parse_tokens;
  room = λ s k v. true;
}

abbrev pub grants : Form → FetchReply TokenData
grants form = replied 200 (some answer)

abbrev pub refuses : Form → FetchReply TokenData
refuses form = replied 400 none

abbrev pub unchanged : Storage → Storage
unchanged s = s

abbrev signed_in : Storage
signed_in = set_item token_storage_key "+old" empty_storage

-- The storage between `login` and the way back.
abbrev pub waiting : Storage
waiting =
    set_item post_login_redirect_key "/cases"
      (set_item auth_state_key "AAAA" (set_item pkce_verifier_key "AAAA" empty_storage))

abbrev pub entered : Completed
entered = complete_login env grants unchanged 20000 "code" "AAAA" waiting

abbrev pub crypto : Crypto
crypto = record { sha256 = λ s. 0 ∷ []; btoa = λ bytes. "AAAA" }

abbrev pub sent_away : Redirect
sent_away = record {
  address = (discovery_urls env.config).authorization_endpoint;
  query = authorization_query env "AAAA" "AAAA";
}

complete_login_sound_example : IsLoggedIn env grants unchanged 20000 "code" "AAAA" waiting entered
unfolding complete_login settle_login store_tokens try_set_item get_item set_item
complete_login_sound_example =
    complete_login_sound env grants unchanged 20000 "code" "AAAA" waiting refl

complete_login_once_example :
    complete_login env grants unchanged 30000 "code" "AAAA" entered.session
    ≡ record { result = invalid_state; session = entered.session; sent = [] }
unfolding complete_login settle_login store_tokens try_set_item get_item set_item
complete_login_once_example =
    complete_login_once env grants unchanged 20000 30000 "code" "code" "AAAA" "AAAA" waiting refl

pub granted-IsJson : IsJson env granted
unfolding tokens_of
granted-IsJson = record { parse-stringify = refl; not_empty = refl }

renewed-IsJson : IsJson env renewed
unfolding tokens_of
renewed-IsJson = record { parse-stringify = refl; not_empty = refl }

login-complete_login_example :
    let returned_state = coalesce (get_param "state" sent_away.query) "" in
    let c = complete_login env grants unchanged 20000 "code" returned_state waiting in
    Requests env crypto (0 ∷ []) (0 ∷ []) "/cases" sent_away.query
    × (c.result ≡ logged_in)
    × (is_authenticated env 49999 (some c.session) ≡ true)
    × ((consume_post_login_redirect waiting).0 ≡ text_or "/cases" "/dashboard")
unfolding login store_login try_set_item random_string base64_url_encode strip_padding url_char
login-complete_login_example =
    login-complete_login env crypto (0 ∷ []) (0 ∷ []) "/cases" grants unchanged 20000 200 49999
      answer "code" empty_storage waiting sent_away granted-IsJson refl refl refl refl refl refl
      (omega arith)

get_valid_access_token_sound_example :
    IsFresh env grants unchanged 5000 signed_in "old" signed_in []
    ⊎ IsRenewed env grants unchanged 5000 5000 signed_in "old" signed_in []
unfolding get_valid_access_token get_stored_tokens is_token_expired get_item set_item
get_valid_access_token_sound_example =
    get_valid_access_token_sound env grants unchanged 5000 5000 signed_in signed_in "old" [] refl

refresh_tokens_stored_example :
    (get_stored_tokens env (some (refresh_tokens env grants unchanged 20000 signed_in).session)
      ≡ some renewed)
    × (renewed.access_token ≡ "new")
    × (renewed.refresh_token ≡ some "r1")
    × (renewed.token_type ≡ "Bearer")
    × (renewed.expires_at ≡ 20000 + 60 * 1000)
unfolding refresh_tokens settle_refresh store_tokens try_set_item get_stored_tokens get_item
    set_item
refresh_tokens_stored_example =
    refresh_tokens_stored env grants unchanged old_tokens renewed 20000 200 answer signed_in
      renewed-IsJson refl refl refl refl

overlapping-signed_out_example :
    let granted = refresh_tokens env grants (λ y. y) 20000 signed_in in
    let r = overlapping env grants refuses 20000 20500 signed_in in
    (is_authenticated env 49999 (some granted.session) ≡ true)
    × (r.tokens ≡ none)
    × (r.sent ≡ refresh_form env "r1" ∷ [])
    × ((after : ℕ) → is_authenticated env after (some r.session) ≡ false)
unfolding refresh_tokens settle_refresh store_tokens try_set_item get_stored_tokens get_item
    set_item tokens_of
overlapping-signed_out_example =
    overlapping-signed_out env grants refuses old_tokens renewed 20000 20500 49999 200 400 answer
      none signed_in refl refl renewed-IsJson refl refl (omega arith) refl refl
