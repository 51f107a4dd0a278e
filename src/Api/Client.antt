-- ===== src/Api/Client.antt =====
-- frontend/lib/api.ts: `request` as a whole: the token, the call of `fetch`, and what becomes of its
-- result.
pub mod Bearer
use go_analyze.Prelude.{ℕ, String, true, Option, none, List, [], if◌then◌else◌, coalesce}
use go_analyze.Platform.{Storage, Form, FetchReply}
use go_analyze.Auth.Tokens.{AuthEnv, TokenData}
use go_analyze.Auth.Refresh.{get_valid_access_token}
use go_analyze.Api.Request.{
  fetch_call, settle_request, FetchCall, RequestOptions, FetchResult, Outcome,
}

-- What the client takes from its surroundings: the texts of the URL parser and of numbers, the token
-- endpoint with the other tasks of the page, and `fetch`.
pub record ClientEnv (Json Content A Body : Type 0) : Type 0 where
  pub auth : AuthEnv
  pub resolve : String → String → String
  pub print : ℕ → String
  pub endpoint : Form → FetchReply TokenData
  pub meanwhile : Storage → Storage
  pub fetch : FetchCall Json Content → FetchResult A Body

-- How a request ended, the storage that it leaves, and what it sent: the forms to the token endpoint,
-- and the call of `fetch`.
pub record Requested (Json Content A Body : Type 0) : Type 0 where
  pub outcome : Outcome A Body
  pub session : Storage
  pub forms : List Form
  pub sent : FetchCall Json Content

module _ {Json Content A Body : Type 0} (env : ClientEnv Json Content A Body) where
  -- From the token on.
  unfoldable pub send_request :
      String
      → RequestOptions Json Content
      → Option String
      → Storage
      → List Form
      → Requested Json Content A Body
  send_request path o token s forms =
      let base = env.auth.config.api_base_url in
      let call = fetch_call env.resolve env.print base path o token in
      record {
        outcome =
            settle_request env.print env.auth.config.api_timeout_ms base path (env.fetch call);
        session = s;
        forms = forms;
        sent = call;
      }

  -- The call starts at `now`, and an answer of the token endpoint is seen at `later`.
  unfoldable pub request :
      ℕ → ℕ → String → RequestOptions Json Content → Storage → Requested Json Content A Body
  unfolding send_request
  request now later path o s =
      let (token, s', forms) =
        get_valid_access_token env.auth env.endpoint env.meanwhile now later s in
      if coalesce o.authenticated true
      then send_request path o token s' forms
      else send_request path o none s []
