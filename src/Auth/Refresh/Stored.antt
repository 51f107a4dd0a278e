-- ===== src/Auth/Refresh/Stored.antt =====
-- frontend/lib/auth.ts: what is found of tokens that were stored, and what the answer to a refresh
-- stores.
use go_analyze.Prelude.{
  ℕ, ◌+◌, ◌*◌, String, ◌≡◌, refl, ap, inl, inr, true, false, Option, none, some, arith,
  Option-cases, coalesce, is_empty,
}
use go_analyze.Platform.{
  Storage, get_item, set_item, remove_item, try_set_item, get_item-set_item_self,
  get_item-remove_item_self, is_ok_status, FetchReply, rejected, replied,
}
use go_analyze.Auth.Tokens.{
  token_storage_key, get_stored_tokens, store_tokens, clear_tokens, is_token_expired, tokens_of,
  StoredTokens, AuthEnv, TokenData,
}
use go_analyze.Auth.Refresh.{settle_refresh, is_authenticated}

-- `JSON.parse` undoes `JSON.stringify` on these tokens, and their text is not empty.
pub record IsJson (env : AuthEnv) (t : StoredTokens) : Type 0 where
  pub parse-stringify : env.parse (env.stringify t) ≡ some t
  pub not_empty : is_empty (env.stringify t) ≡ false

pub get_item-store_tokens :
    (env : AuthEnv) (t : StoredTokens) (s s' : Storage)
    → store_tokens env t s ≡ some s'
    → get_item token_storage_key s' ≡ some (env.stringify t)
unfolding store_tokens try_set_item
get_item-store_tokens env t s s' h =
    let e : s' ≡ set_item token_storage_key (env.stringify t) s = ground arith in
    rw e (get_item-set_item_self token_storage_key (env.stringify t) s)

-- What the page reads where these tokens were written.
pub get_stored_tokens_of :
    (env : AuthEnv) (t : StoredTokens) (s : Storage)
    → IsJson env t
    → get_item token_storage_key s ≡ some (env.stringify t)
    → get_stored_tokens env (some s) ≡ some t
unfolding get_stored_tokens
get_stored_tokens_of env t s json e = rw (e, get_stored_tokens, json.not_empty) json.parse-stringify

pub get_stored_tokens-clear_tokens :
    (env : AuthEnv) (s : Storage) → get_stored_tokens env (clear_tokens (some s)) ≡ none
unfolding get_stored_tokens clear_tokens
get_stored_tokens-clear_tokens env s =
    rw (get_item-remove_item_self token_storage_key s, get_stored_tokens)

-- Without stored tokens nobody is signed in.
pub signed_out :
    (env : AuthEnv) (now : ℕ) (s : Storage)
    → is_authenticated env now (some (remove_item token_storage_key s)) ≡ false
unfolding is_authenticated get_stored_tokens is_token_expired
signed_out env now s = rw (get_item-remove_item_self token_storage_key s, get_stored_tokens)

pub tokens_of_fields :
    (kept : Option String) (now : ℕ) (answer : TokenData) (t : StoredTokens)
    → t ≡ tokens_of kept now answer
    → (t.access_token ≡ answer.access_token)
      × (t.refresh_token ≡ (elim answer.refresh_token [ none ↦ kept | some r ↦ some r ]))
      × (t.token_type ≡ coalesce answer.token_type "Bearer")
      × (t.expires_at ≡ now + coalesce answer.expires_in 300 * 1000)
unfolding tokens_of
tokens_of_fields kept now answer t e = (
  ap StoredTokens.access_token e,
  ap StoredTokens.refresh_token e,
  ap StoredTokens.token_type e,
  ap StoredTokens.expires_at e,
)

pub same_answer :
    {reply : FetchReply TokenData} {m n : ℕ} {c d : TokenData}
    → reply ≡ replied m (some c)
    → reply ≡ replied n (some d)
    → c ≡ d
same_answer e f = cc

-- What a refresh that brought tokens has seen.
pub record IsGranted (env : AuthEnv) (current : StoredTokens) (now : ℕ) (s : Storage)
    (reply : FetchReply TokenData) (t : StoredTokens) (s' : Storage) : Type 0 where
  pub status : ℕ
  pub answer : TokenData
  pub answered : reply ≡ replied status (some answer)
  pub accepted : is_ok_status status ≡ true
  pub token : t ≡ tokens_of current.refresh_token now answer
  pub access : t.access_token ≡ answer.access_token
  pub kept : store_tokens env t s ≡ some s'

pub settle_refresh-IsGranted :
    (env : AuthEnv) (current : StoredTokens) (now : ℕ) (s : Storage) (reply : FetchReply TokenData)
    (t : StoredTokens) (s' : Storage)
    → settle_refresh env current now s reply ≡ (some t, s')
    → IsGranted env current now s reply t s'
unfolding settle_refresh
settle_refresh-IsGranted env current now s rejected t s' h = ground arith
settle_refresh-IsGranted env current now s (replied status none) t s' h = ground arith
settle_refresh-IsGranted env current now s (replied status (some d)) t s' h =
    elim (Option-cases (store_tokens env (tokens_of current.refresh_token now d) s)) [
      | inl full ↦ ground arith
      | inr (s₁, stored) ↦
          let e : (is_ok_status status ≡ true)
              × (t ≡ tokens_of current.refresh_token now d)
              × (s' ≡ s₁) =
            ground arith in
          record {
            status = status;
            answer = d;
            answered = refl;
            accepted = e.0;
            token = e.1;
            access = rw e.1 (unfold tokens_of in refl);
            kept = rw (e.1, e.2) stored;
          }
    ]
