-- ===== src/Tests/MachineRuns.antt =====
-- frontend/lib/auth.ts and frontend/lib/api.ts: the theorems on sessions at concrete inputs.
use go_analyze.Auth.Machine.Register.{IsReadable, run_events, Reach-latest}
use go_analyze.Auth.Refresh.{is_authenticated}
use go_analyze.Auth.Machine.Sharing.{logout-get_cached_document}
use go_analyze.Cache.{cache_key, blank, get_cached_document, CacheEnv}
use go_analyze.Cache.Runs.{apply_writes, searched}
use go_analyze.Api.Client.{request, ClientEnv}
use go_analyze.Api.Client.Bearer.{request-Carries, Carries}
use go_analyze.Api.Request.{RequestOptions, failed}
use go_analyze.Auth.Base64Url.Alphabet.{IsBtoa}
use go_analyze.Auth.Jwt.Percent.{escaped_bytes, IsPercentDecoder}
use go_analyze.Auth.Jwt.{decode_jwt, JwtEnv}
use go_analyze.Auth.Jwt.Segments.{token_of, decode_jwt-token_of}
use go_analyze.Prelude.{
  Option, if◌then◌else◌, nat_eq, ◌>>=◌, ℕ, String, ◌≡◌, refl, inl, inr, true, false, not, none,
  some, List, [], ◌∷◌, arith, ◌==◌, if◌then◌else◌, coalesce, All, ◌<+>◌,
}
use go_analyze.Platform.{
  Storage, get_item, set_item, empty_storage, try_set_item, Form, FetchReply, replied,
}
use go_analyze.Config.{config}
use go_analyze.Auth.Tokens.{
  token_storage_key, pkce_verifier_key, auth_state_key, get_stored_tokens, is_token_expired,
  tokens_of, StoredTokens, AuthEnv, TokenData,
}
use go_analyze.Auth.Base64Url.{url_char, strip_padding, base64_url_encode, random_string}
use go_analyze.Auth.Login.{store_login, login, state_accepted, settle_login, logout, Crypto}
use go_analyze.Auth.Machine.{
  first_world, exchanging, World, logs_in, comes_back, code_answered, Reach, here, extended,
}
use go_analyze.Auth.Machine.Traced.{Reach-IsTraced, IsTraced}

abbrev answer : TokenData
answer = record {
  access_token = "new";
  refresh_token = some "r1";
  id_token = none;
  token_type = none;
  expires_in = some 60;
}

abbrev granted : StoredTokens
granted = tokens_of none 20000 answer

abbrev env : AuthEnv
env = record {
  config = config (λ _. none);
  origin = "http://localhost:3000";
  stringify = λ t. t.access_token;
  parse = λ raw. some granted;
  room = λ s k v. true;
}

abbrev grants : Form → FetchReply TokenData
grants form = replied 200 (some answer)

abbrev unchanged : Storage → Storage
unchanged s = s

abbrev crypto : Crypto
crypto = record { sha256 = λ s. 0 ∷ []; btoa = λ bytes. "AAAA" }

-- A login, the way back, its answer, and a logout.
abbrev sent_away : World
sent_away = record {
  storage = (login env crypto (0 ∷ []) (0 ∷ []) "/cases" empty_storage).0;
  drawn = (random_string crypto.btoa (0 ∷ []) 64, random_string crypto.btoa (0 ∷ []) 24) ∷ [];
  pending = [];
  granted = [];
}

abbrev came_back : World
came_back = record sent_away {
  pending =
      exchanging "code" (coalesce (get_item pkce_verifier_key sent_away.storage) "") "AAAA" ∷ [];
}

abbrev signed_in : World
signed_in = record came_back {
  storage = (settle_login env 20000 sent_away.storage (replied 200 (some answer))).1;
  pending = [];
  granted = record { kept = none; seen_at = 20000; answer = answer } ∷ [];
}

sent_away_accepted :
    state_accepted
      (get_item pkce_verifier_key sent_away.storage)
      (get_item auth_state_key sent_away.storage)
      "AAAA"
    ≡ true
unfolding login store_login try_set_item get_item set_item random_string base64_url_encode
    strip_padding url_char
sent_away_accepted = refl

abbrev signed_in_run : Reach env crypto first_world signed_in
signed_in_run =
    extended
      (extended (extended here (logs_in first_world (0 ∷ []) (0 ∷ []) "/cases"))
        (comes_back sent_away "code" "AAAA" sent_away_accepted))
      (code_answered came_back "code" (coalesce (get_item pkce_verifier_key sent_away.storage) "")
        "AAAA" [] [] 20000 (replied 200 (some answer)) refl)

Reach-IsTraced_example : IsTraced env signed_in
Reach-IsTraced_example = Reach-IsTraced env crypto signed_in_run

abbrev used_up : World
used_up = record first_world { storage = set_item token_storage_key "new" empty_storage }

abbrev client : ClientEnv String String String String
client = record {
  auth = env;
  resolve = λ path base. base <+> path;
  print = λ n. "200";
  endpoint = grants;
  meanwhile = unchanged;
  fetch = λ call. failed;
}

abbrev get_cases : RequestOptions String String
get_cases = record {
  method = none;
  query = [];
  json = none;
  body = none;
  headers = [];
  authenticated = none;
  has_signal = false;
}

request-Carries_example :
    Carries client 90000 90001 used_up.storage get_cases
      (request client 90000 90001 "/v1/cases" get_cases used_up.storage)
request-Carries_example = request-Carries client 90000 90001 "/v1/cases" get_cases used_up.storage

abbrev btoa : List ℕ → String
btoa bytes = "+/8="

abbrev btoa_law : IsBtoa btoa
btoa_law = record {
  body = λ bytes. "+/8";
  padding = λ bytes. "=";
  split = λ bytes. refl;
  body_base64 =
      λ bytes. (inr (inl refl), (inr (inr refl), (inl (inr (inr (omega arith, omega arith))), tt)));
  padding_padding = λ bytes. (refl, tt);
}

-- The texts of two bytes.
abbrev utf8 : List ℕ → Option String
utf8 [] = some ""
utf8 (b ∷ bs) = if nat_eq b 9 then some "user" else none

abbrev jwt : JwtEnv String
jwt = record {
  atob = λ s. if s == "+/8" then some (9 ∷ 255 ∷ []) else none;
  decode_uri_component = λ s. escaped_bytes s >>= utf8;
  parse = λ s. some s;
}

jwt_decodes : IsPercentDecoder jwt.decode_uri_component utf8
jwt_decodes t bytes h = rw h refl

decode_jwt-token_of_example :
    decode_jwt jwt (token_of btoa "head" (9 ∷ 255 ∷ []) "sign") ≡ some "user"
decode_jwt-token_of_example =
    decode_jwt-token_of jwt btoa btoa_law utf8 "head" "sign" "user" (9 ∷ 255 ∷ []) "user"
      jwt_decodes (refl, (refl, (refl, (refl, tt)))) (omega arith, (omega arith, tt)) refl refl refl

-- A cache that knows every document.
abbrev cache_env : CacheEnv
cache_env = record {
  stringify = λ c. "{}";
  parse = λ raw. some (λ id. if raw == "all" then some (blank id) else none);
  room = λ s k v. true;
}

abbrev cached : World
cached = record first_world { storage = set_item cache_key "all" empty_storage }

abbrev left : World
left = record cached {
  storage = (login env crypto (0 ∷ []) (0 ∷ []) "/cases" cached.storage).0;
  drawn = (random_string crypto.btoa (0 ∷ []) 64, random_string crypto.btoa (0 ∷ []) 24) ∷ [];
}

logout-get_cached_document_example :
    let out = coalesce (logout env (some left.storage)).0 left.storage in
    (get_stored_tokens env (some (apply_writes cache_env (searched [] ∷ []) left.storage))
      ≡ get_stored_tokens env (some left.storage))
    × ((now : ℕ) → is_authenticated env now (some out) ≡ false)
    × ((id : String)
        → get_cached_document cache_env id (some out)
          ≡ get_cached_document cache_env id (some cached.storage))
logout-get_cached_document_example =
    logout-get_cached_document env crypto cache_env
      (extended here (logs_in cached (0 ∷ []) (0 ∷ []) "/cases")) (searched [] ∷ []) (tt, tt)

signed_in-IsReadable : All (IsReadable env) (run_events env crypto signed_in_run)
unfolding tokens_of
signed_in-IsReadable = (record { parse-stringify = refl; not_empty = refl }, tt)

Reach-latest_example :
    (get_stored_tokens env (some signed_in.storage) ≡ some granted)
    × ((now : ℕ)
        → is_authenticated env now (some signed_in.storage)
          ≡ not (is_token_expired now (some granted)))
Reach-latest_example = Reach-latest env crypto signed_in_run signed_in-IsReadable
