-- ===== src/Auth/Machine/Register.antt =====
-- frontend/lib/auth.ts: the stored tokens of a session as a register that the answers of the token
-- endpoint write and that refusals and logouts clear.
use go_analyze.Auth.Refresh.Stored.{get_stored_tokens_of, IsJson}
use go_analyze.Prelude.{
  ℕ, code, String, ◌≡◌, refl, sym, ap, ◌∙◌, true, not, ◌&&◌, Option, none, some, List, [], ◌∷◌,
  ◌++◌, arith, if◌then◌else◌, coalesce, All,
}
use go_analyze.Platform.{
  Storage, get_item, set_item, remove_item, try_set_item, get_item-set_item_ne, is_ok_status,
  FetchReply, rejected, replied,
}
use go_analyze.Auth.Tokens.{
  token_storage_key, get_stored_tokens, store_tokens, clear_tokens, is_token_expired, StoredTokens,
  AuthEnv, TokenData,
}
use go_analyze.Auth.Refresh.{settle_refresh, is_authenticated}
use go_analyze.Auth.Login.{
  store_login, login, settle_login, consume_post_login_redirect, logout, Crypto,
}
use go_analyze.Auth.Machine.{
  grant_tokens, first_world, is_other_key, Grant, World, Step, logs_in, comes_back, code_answered,
  asks_refresh, refresh_answered, goes_on, logs_out, writes_else, Reach, here, extended,
}

-- A write of the register, or its clearing.
pub data TokenEvent : Type 0 where
  wrote : Grant → TokenEvent
  cleared : TokenEvent

-- What the register holds after these events, the newest one first.
abbrev pub latest : List TokenEvent → Option StoredTokens
latest [] = none
latest (wrote g ∷ es) = some (grant_tokens g)
latest (cleared ∷ es) = none

module _ (env : AuthEnv) where
  -- The tokens of an accepted answer are written if the browser takes the write.
  abbrev pub writes : Storage → Option String → ℕ → FetchReply TokenData → List TokenEvent
  writes s kept now rejected = []
  writes s kept now (replied status none) = []
  writes s kept now (replied status (some d)) =
      let g : Grant = record { kept = kept; seen_at = now; answer = d } in
      if is_ok_status status && env.room s token_storage_key (env.stringify (grant_tokens g))
      then wrote g ∷ []
      else []

  -- A refusal of a refresh clears the register.
  abbrev pub refusals : FetchReply TokenData → List TokenEvent
  refusals rejected = []
  refusals (replied status body) = if is_ok_status status then [] else cleared ∷ []

  -- The text that is stored for the tokens after these events.
  abbrev text_after : List TokenEvent → Option String → Option String
  text_after [] old = old
  text_after (wrote g ∷ es) old = some (env.stringify (grant_tokens g))
  text_after (cleared ∷ es) old = none

  text_after-append :
      (es fs : List TokenEvent) (old : Option String)
      → text_after (es ++ fs) old ≡ text_after es (text_after fs old)
  text_after-append [] fs old = refl
  text_after-append (wrote g ∷ es) fs old = refl
  text_after-append (cleared ∷ es) fs old = refl

  -- The text of the tokens.
  abbrev tokens_text : Storage → Option String
  tokens_text s = get_item token_storage_key s

  store_login_text :
      (v st r : String) (s : Storage)
      → tokens_text (store_login env.room v st r s).0 ≡ tokens_text s
  unfolding store_login try_set_item get_item set_item
  store_login_text v st r s = ground arith

  settle_login_text :
      (now : ℕ) (s : Storage) (reply : FetchReply TokenData)
      → tokens_text (settle_login env now s reply).1
        ≡ text_after (writes s none now reply) (tokens_text s)
  unfolding settle_login store_tokens try_set_item get_item set_item remove_item
  settle_login_text now s rejected = refl
  settle_login_text now s (replied status none) = ground arith
  settle_login_text now s (replied status (some d)) = ground arith

  settle_refresh_text :
      (current : StoredTokens) (now : ℕ) (s : Storage) (reply : FetchReply TokenData)
      → tokens_text (settle_refresh env current now s reply).1
        ≡ text_after (refusals reply ++ writes s current.refresh_token now reply) (tokens_text s)
  unfolding settle_refresh store_tokens try_set_item get_item set_item remove_item clear_tokens
  settle_refresh_text current now s rejected = refl
  settle_refresh_text current now s (replied status none) = ground arith
  settle_refresh_text current now s (replied status (some d)) = ground arith

  logout_text : (s : Storage) → tokens_text (coalesce (logout env (some s)).0 s) ≡ none
  unfolding logout clear_tokens get_item remove_item
  logout_text s = refl

  consume_text : (s : Storage) → tokens_text (consume_post_login_redirect s).1 ≡ tokens_text s
  unfolding consume_post_login_redirect get_item remove_item
  consume_text s = refl

  other_text :
      (k v : String) (s : Storage)
      → is_other_key k ≡ true
      → tokens_text (set_item k v s) ≡ tokens_text s
  other_text k v s h = get_item-set_item_ne k token_storage_key v s (ground (arith, h))

  -- The tokens that are found for the text after these events, if each writes what can be read.
  abbrev pub IsReadable : TokenEvent → Type 0
  IsReadable (wrote g) = IsJson env (grant_tokens g)
  IsReadable cleared = Unit {0}

  read_latest :
      (es : List TokenEvent) (s : Storage)
      → All IsReadable es
      → tokens_text s ≡ text_after es none
      → get_stored_tokens env (some s) ≡ latest es
  unfolding get_stored_tokens
  read_latest [] s h e = rw (get_stored_tokens, e) refl
  read_latest (cleared ∷ es) s h e = rw (get_stored_tokens, e) refl
  read_latest (wrote g ∷ es) s (json, h) e = get_stored_tokens_of env (grant_tokens g) s json e

  module _ (crypto : Crypto) where
    -- What a step does to the register.
    abbrev pub step_events : {v w : World} → Step env crypto v w → List TokenEvent
    step_events (code_answered w code v st before after now reply e) =
        writes w.storage none now reply
    step_events (refresh_answered w current before after now reply e) =
        refusals reply ++ writes w.storage current.refresh_token now reply
    step_events (logs_out w) = cleared ∷ []
    step_events _ = []

    -- And a run, the newest event first.
    abbrev pub run_events : {v w : World} → Reach env crypto v w → List TokenEvent
    run_events here = []
    run_events (extended r s) = step_events s ++ run_events r

    Step-text :
        {v w : World} (s : Step env crypto v w)
        → tokens_text w.storage ≡ text_after (step_events s) (tokens_text v.storage)
    unfolding login
    Step-text (logs_in w vb sb after) = store_login_text _ _ after w.storage
    Step-text (comes_back w code state good) = refl
    Step-text (code_answered w code v st before after now reply e) =
        settle_login_text now w.storage reply
    Step-text (asks_refresh w current stored y) = refl
    Step-text (refresh_answered w current before after now reply e) =
        settle_refresh_text current now w.storage reply
    Step-text (goes_on w) = consume_text w.storage
    Step-text (logs_out w) = logout_text w.storage
    Step-text (writes_else w k v other) = other_text k v w.storage other

    run_text :
        {v w : World} (r : Reach env crypto v w)
        → tokens_text w.storage ≡ text_after (run_events r) (tokens_text v.storage)
    run_text here = refl
    run_text (extended r s) =
        Step-text s
        ∙ ap (text_after (step_events s)) (run_text r)
        ∙ sym (text_after-append (step_events s) (run_events r) _)

    -- Where the tokens of each write survive the way through JSON: after any run from an empty storage,
    -- with logins, returns, refreshes, answers, logouts and writes to other keys in any order, the
    -- tokens that the page finds are those of the newest write of an accepted answer, or none if a
    -- refused refresh or a logout came after it or nothing was written. So whether the page is signed
    -- in depends on that event and the time alone.
    pub Reach-latest :
        {w : World} (r : Reach env crypto first_world w)
        → All IsReadable (run_events r)
        → (get_stored_tokens env (some w.storage) ≡ latest (run_events r))
          × ((now : ℕ)
              → is_authenticated env now (some w.storage)
                ≡ not (is_token_expired now (latest (run_events r))))
    unfolding is_authenticated get_item
    Reach-latest {w} r readable =
        let same = read_latest (run_events r) w.storage readable (run_text r) in
        (same, λ now. ap (λ (o : Option StoredTokens). not (is_token_expired now o)) same)
