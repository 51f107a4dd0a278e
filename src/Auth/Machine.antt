-- ===== src/Auth/Machine.antt =====
-- frontend/lib/auth.ts: all that can happen to the session's storage, one step after the other. A
-- call that waits for the token endpoint is two steps, with any others between them.
pub mod Frames
pub mod Traced
pub mod Runs
pub mod Sharing
pub mod Register
use go_analyze.Prelude.{
  ℕ, code, String, ◌≡◌, Bool, true, not, ◌&&◌, Option, none, some, List, [], ◌∷◌, ◌++◌, ◌==◌,
  if◌then◌else◌, coalesce, is_truthy, truthy_or,
}
use go_analyze.Platform.{
  Storage, get_item, set_item, empty_storage, is_ok_status, Form, FetchReply, rejected, replied,
}
use go_analyze.Auth.Base64Url.{random_string}
use go_analyze.Auth.Tokens.{
  token_storage_key, pkce_verifier_key, auth_state_key, get_stored_tokens, tokens_of, StoredTokens,
  AuthEnv, TokenData,
}
use go_analyze.Auth.Refresh.{refresh_form, settle_refresh}
use go_analyze.Auth.Login.{
  login, code_form, state_accepted, settle_login, consume_post_login_redirect, logout, Crypto,
}

-- A request to the token endpoint that is not answered yet: a code with its verifier, for the state
-- that came back, or a refresh of stored tokens.
pub data Pending : Type 0 where
  exchanging : String → String → String → Pending
  refreshing : StoredTokens → Pending

-- The form that was sent for it.
abbrev pub pending_form : AuthEnv → Pending → Form
pending_form env (exchanging code verifier state) = code_form env code verifier
pending_form env (refreshing current) = refresh_form env (truthy_or current.refresh_token "")

-- An answer with a status from 200 to 299: the refresh token that it keeps, and its time.
pub record Grant : Type 0 where
  pub kept : Option String
  pub seen_at : ℕ
  pub answer : TokenData

abbrev pub grant_tokens : Grant → StoredTokens
grant_tokens g = tokens_of g.kept g.seen_at g.answer

abbrev pub grants_of : Option String → ℕ → FetchReply TokenData → List Grant
grants_of kept now rejected = []
grants_of kept now (replied status none) = []
grants_of kept now (replied status (some d)) =
    if is_ok_status status then record { kept = kept; seen_at = now; answer = d } ∷ [] else []

-- The storage; what the logins have drawn, each a verifier with its state; the requests under way;
-- and the grants of the endpoint.
pub record World : Type 0 where
  pub storage : Storage
  pub drawn : List (String × String)
  pub pending : List Pending
  pub granted : List Grant

abbrev pub first_world : World
first_world = record { storage = empty_storage; drawn = []; pending = []; granted = [] }

-- A key that the session does not use.
abbrev pub is_other_key : String → Bool
is_other_key k =
    not (k == token_storage_key) && (not (k == pkce_verifier_key) && not (k == auth_state_key))

module _ (env : AuthEnv) (crypto : Crypto) where
  pub data Step : World → World → Type 0 where
    logs_in :
        (w : World) (verifier_bytes state_bytes : List ℕ) (redirect_after : String)
        → Step w (record w {
          storage = (login env crypto verifier_bytes state_bytes redirect_after w.storage).0;
          drawn =
              (
                random_string crypto.btoa verifier_bytes 64,
                random_string crypto.btoa state_bytes 24,
              )
              ∷ w.drawn;
        })
    comes_back :
        (w : World) (code state : String)
        → state_accepted
            (get_item pkce_verifier_key w.storage)
            (get_item auth_state_key w.storage)
            state
          ≡ true
        → Step w (record w {
          pending =
              exchanging code (coalesce (get_item pkce_verifier_key w.storage) "") state
              ∷ w.pending;
        })
    code_answered :
        (w : World) (code verifier state : String) (before after : List Pending) (now : ℕ)
        (reply : FetchReply TokenData)
        → w.pending ≡ before ++ exchanging code verifier state ∷ after
        → Step w (record w {
          storage = (settle_login env now w.storage reply).1;
          pending = before ++ after;
          granted = grants_of none now reply ++ w.granted;
        })
    asks_refresh :
        (w : World) (current : StoredTokens)
        → get_stored_tokens env (some w.storage) ≡ some current
        → is_truthy current.refresh_token ≡ true
        → Step w (record w { pending = refreshing current ∷ w.pending })
    refresh_answered :
        (w : World) (current : StoredTokens) (before after : List Pending) (now : ℕ)
        (reply : FetchReply TokenData)
        → w.pending ≡ before ++ refreshing current ∷ after
        → Step w (record w {
          storage = (settle_refresh env current now w.storage reply).1;
          pending = before ++ after;
          granted = grants_of current.refresh_token now reply ++ w.granted;
        })
    goes_on :
        (w : World) → Step w (record w { storage = (consume_post_login_redirect w.storage).1 })
    logs_out :
        (w : World)
        → Step w (record w { storage = coalesce (logout env (some w.storage)).0 w.storage })
    writes_else :
        (w : World) (k v : String)
        → is_other_key k ≡ true
        → Step w (record w { storage = set_item k v w.storage })

  pub data Reach (v : World) : World → Type 0 where
    here : Reach v v
    extended : {u w : World} → Reach v u → Step u w → Reach v w

  pub Reach-trans : {u v w : World} → Reach u v → Reach v w → Reach u w
  Reach-trans r here = r
  Reach-trans r (extended q s) = extended (Reach-trans r q) s
