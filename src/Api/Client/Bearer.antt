-- ===== src/Api/Client/Bearer.antt =====
-- frontend/lib/api.ts: which token a request carries.
use go_analyze.Auth.Refresh.{get_valid_access_token}
use go_analyze.Api.Request.Results.{final_headers-fields}
use go_analyze.Prelude.{
  ℕ, String, ◌≡◌, refl, ◌∙◌, ◌⊎◌, inl, inr, true, false, ◌&&◌, Option, none, some, List, [], ◌∷◌,
  if◌then◌else◌, Bool-cases, coalesce, is_empty, is_truthy, ◌<+>◌,
}
use go_analyze.Platform.{Storage, Form}
use go_analyze.Auth.Refresh.Laws.{get_valid_access_token_sound, IsFresh, IsRenewed}
use go_analyze.Api.Url.Query.{get_param}
use go_analyze.Api.Request.{spread_headers, fetch_call, RequestOptions}
use go_analyze.Api.Client.{send_request, request, ClientEnv, Requested}

-- The header `Authorization` that the caller gave.
abbrev pub own_authorization : {Json Content : Type 0} → RequestOptions Json Content → Option String
own_authorization o =
    get_param "Authorization" (spread_headers (("Accept", "application/json") ∷ []) o.headers)

module _ {Json Content A Body : Type 0} (env : ClientEnv Json Content A Body) where
  -- Where the token that a request carries comes from.
  pub data Carries (now later : ℕ) (s : Storage) (o : RequestOptions Json Content)
      (r : Requested Json Content A Body) : Type 0 where
    -- Nothing was asked of the token endpoint for a request that wants no token.
    anonymous :
        coalesce o.authenticated true ≡ false
        → r.forms ≡ []
        → r.session ≡ s
        → get_param "Authorization" r.sent.headers ≡ own_authorization o
        → Carries now later s o r
    -- There is no token, or an empty one.
    tokenless :
        is_truthy (get_valid_access_token env.auth env.endpoint env.meanwhile now later s).0 ≡ false
        → get_param "Authorization" r.sent.headers ≡ own_authorization o
        → Carries now later s o r
    -- The token is the stored one, or that of a refresh.
    carried :
        (t : String)
        → is_empty t ≡ false
        → get_param "Authorization" r.sent.headers ≡ some ("Bearer " <+> t)
        → IsFresh env.auth env.endpoint env.meanwhile now s t r.session r.forms
          ⊎ IsRenewed env.auth env.endpoint env.meanwhile now later s t r.session r.forms
        → Carries now later s o r

  sent_authorization :
      (path : String) (o : RequestOptions Json Content) (token : Option String) (s : Storage)
      (forms : List Form)
      → get_param "Authorization" (send_request env path o token s forms).sent.headers ≡ (
          if coalesce o.authenticated true && is_truthy token
          then some ("Bearer " <+> coalesce token "")
          else own_authorization o)
  unfolding send_request fetch_call
  sent_authorization path o token s forms = (final_headers-fields o token).0

  request_anonymous :
      (now later : ℕ) (path : String) (o : RequestOptions Json Content) (s : Storage)
      → coalesce o.authenticated true ≡ false
      → request env now later path o s ≡ send_request env path o none s []
  unfolding request
  request_anonymous now later path o s e = rw (request, e)

  request_authenticated :
      (now later : ℕ) (path : String) (o : RequestOptions Json Content) (s : Storage)
      → coalesce o.authenticated true ≡ true
      → let g = get_valid_access_token env.auth env.endpoint env.meanwhile now later s in
        request env now later path o s ≡ send_request env path o g.0 g.1 g.2
  unfolding request
  request_authenticated now later path o s e = rw (request, e)

  send-Carries :
      (now later : ℕ) (path : String) (o : RequestOptions Json Content) (s s' : Storage)
      (token : Option String) (forms : List Form)
      → coalesce o.authenticated true ≡ true
      → get_valid_access_token env.auth env.endpoint env.meanwhile now later s ≡ (token, s', forms)
      → Carries now later s o (send_request env path o token s' forms)
  send-Carries now later path o s s' none forms asked h =
      tokenless (rw h) (sent_authorization path o none s' forms ∙ rw asked)
  send-Carries now later path o s s' (some t) forms asked h = elim (Bool-cases (is_empty t)) [
    | inl blank ↦
        tokenless (rw (h, blank)) (sent_authorization path o (some t) s' forms ∙ rw (asked, blank))
    | inr full ↦ carried t full (sent_authorization path o (some t) s' forms ∙ rw (asked, full)) (
        unfold send_request in
        get_valid_access_token_sound env.auth env.endpoint env.meanwhile now later s s' t forms h)
  ]

  -- A request that is not authenticated asks for no token, leaves the storage alone and has the
  -- caller's own header `Authorization`, if any. Any other one carries a token that is not empty, and
  -- that is the stored one, still good for more than 30 s, or that of one refresh that the endpoint
  -- granted; or there is none, and it has the caller's own header.
  pub request-Carries :
      (now later : ℕ) (path : String) (o : RequestOptions Json Content) (s : Storage)
      → Carries now later s o (request env now later path o s)
  request-Carries now later path o s =
      let g = get_valid_access_token env.auth env.endpoint env.meanwhile now later s in
      elim (Bool-cases (coalesce o.authenticated true)) [
        | inl asked ↦
            rw (request_authenticated now later path o s asked)
              (send-Carries now later path o s g.1 g.0 g.2 asked refl)
        | inr not_asked ↦ rw (request_anonymous now later path o s not_asked) (
            anonymous not_asked (unfold send_request in refl) (unfold send_request in refl)
              (sent_authorization path o none s [] ∙ rw not_asked))
      ]
