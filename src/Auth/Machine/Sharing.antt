-- ===== src/Auth/Machine/Sharing.antt =====
-- frontend/lib/auth.ts and frontend/lib/documentCache.ts: both keep their items in one sessionStorage.
use go_analyze.Auth.Refresh.Stored.{signed_out}
use go_analyze.Auth.Machine.{
  World, Step, logs_in, comes_back, code_answered, asks_refresh, refresh_answered, goes_on,
  logs_out, writes_else, Reach, here, extended,
}
use go_analyze.Prelude.{
  ℕ, code, String, ◌≡◌, refl, ap, ◌∙◌, false, Option, none, some, List, [], ◌∷◌, arith, ◌==◌,
  coalesce,
}
use go_analyze.Platform.{
  Storage, get_item, set_item, remove_item, Room, try_set_item, get_item-set_item_ne, FetchReply,
  rejected, replied,
}
use go_analyze.Auth.Tokens.{
  token_storage_key, get_stored_tokens, store_tokens, clear_tokens, StoredTokens, AuthEnv,
  TokenData,
}
use go_analyze.Auth.Refresh.{settle_refresh, is_authenticated}
use go_analyze.Auth.Login.{
  store_login, login, settle_login, consume_post_login_redirect, logout, Crypto,
}
use go_analyze.Cache.Runs.{apply_write, apply_writes, CacheWrite, recorded, searched}
use go_analyze.Cache.{
  cache_key, empty_cache, read_cache, write_cache, cache_document_record, cache_search_hits,
  get_cached_document, CacheEnv,
}

-- The text of the document cache is the same.
abbrev SparesCache : Storage → Storage → Type 0
SparesCache s t = get_item cache_key t ≡ get_item cache_key s

spares-store_login :
    (room : Room) (v st r : String) (s : Storage) → SparesCache s (store_login room v st r s).0
unfolding store_login try_set_item get_item set_item
spares-store_login room v st r s = ground arith

spares-login :
    (env : AuthEnv) (crypto : Crypto) (vb sb : List ℕ) (after : String) (s : Storage)
    → SparesCache s (login env crypto vb sb after s).0
unfolding login
spares-login env crypto vb sb after s = spares-store_login env.room _ _ after s

spares-settle_login :
    (env : AuthEnv) (now : ℕ) (s : Storage) (reply : FetchReply TokenData)
    → SparesCache s (settle_login env now s reply).1
unfolding settle_login store_tokens try_set_item get_item set_item remove_item
spares-settle_login env now s rejected = refl
spares-settle_login env now s (replied status none) = ground arith
spares-settle_login env now s (replied status (some d)) = ground arith

spares-settle_refresh :
    (env : AuthEnv) (current : StoredTokens) (now : ℕ) (s : Storage) (reply : FetchReply TokenData)
    → SparesCache s (settle_refresh env current now s reply).1
unfolding settle_refresh store_tokens try_set_item get_item set_item remove_item clear_tokens
spares-settle_refresh env current now s rejected = refl
spares-settle_refresh env current now s (replied status none) = ground arith
spares-settle_refresh env current now s (replied status (some d)) = ground arith

spares-consume : (s : Storage) → SparesCache s (consume_post_login_redirect s).1
unfolding consume_post_login_redirect get_item remove_item
spares-consume s = refl

spares-logout : (env : AuthEnv) (s : Storage) → SparesCache s (coalesce (logout env (some s)).0 s)
unfolding logout clear_tokens get_item remove_item
spares-logout env s = refl

module _ (env : AuthEnv) (crypto : Crypto) where
  -- The step is one of the session's own, or a write to another key than the cache's.
  abbrev pub IsOwnStep : {v w : World} → Step env crypto v w → Type 0
  IsOwnStep (writes_else w k v other) = (k == cache_key) ≡ false
  IsOwnStep _ = Unit {0}

  abbrev pub IsOwnRun : {v w : World} → Reach env crypto v w → Type 0
  IsOwnRun here = Unit {0}
  IsOwnRun (extended r s) = IsOwnRun r × IsOwnStep s

  spares-Step :
      {v w : World} (s : Step env crypto v w) → IsOwnStep s → SparesCache v.storage w.storage
  unfolding get_item set_item
  spares-Step (logs_in w vb sb after) h = spares-login env crypto vb sb after w.storage
  spares-Step (comes_back w code state good) h = refl
  spares-Step (code_answered w code v st before after now reply e) h =
      spares-settle_login env now w.storage reply
  spares-Step (asks_refresh w current stored y) h = refl
  spares-Step (refresh_answered w current before after now reply e) h =
      spares-settle_refresh env current now w.storage reply
  spares-Step (goes_on w) h = spares-consume w.storage
  spares-Step (logs_out w) h = spares-logout env w.storage
  spares-Step (writes_else w k v other) h = get_item-set_item_ne k cache_key v w.storage h

  spares-Reach :
      {v w : World} (r : Reach env crypto v w) → IsOwnRun r → SparesCache v.storage w.storage
  spares-Reach here h = refl
  spares-Reach (extended r s) (hs, h) = spares-Step s h ∙ spares-Reach r hs

  module _ (cache_env : CacheEnv) where
    found_again :
        (s t : Storage) (id : String)
        → SparesCache s t
        → get_cached_document cache_env id (some t) ≡ get_cached_document cache_env id (some s)
    unfolding get_cached_document read_cache
    found_again s t id same =
        ap (λ (o : Option String). coalesce (cache_env.parse (coalesce o "{}")) empty_cache id) same

    kept_tokens :
        (v : CacheWrite) (s : Storage)
        → get_item token_storage_key (apply_write cache_env v s) ≡ get_item token_storage_key s
    unfolding cache_document_record cache_search_hits write_cache try_set_item get_item set_item
    kept_tokens (recorded r) s = ground arith
    kept_tokens (searched hits) s = ground arith

    kept_tokens_run :
        (ws : List CacheWrite) (s : Storage)
        → get_item token_storage_key (apply_writes cache_env ws s) ≡ get_item token_storage_key s
    kept_tokens_run [] s = refl
    kept_tokens_run (v ∷ ws) s = kept_tokens_run ws (apply_write cache_env v s) ∙ kept_tokens v s

    read_tokens :
        (s t : Storage)
        → get_item token_storage_key t ≡ get_item token_storage_key s
        → get_stored_tokens env (some t) ≡ get_stored_tokens env (some s)
    unfolding get_stored_tokens
    read_tokens s t same = rw (get_stored_tokens, same) refl

    -- The session and the cache share one storage and leave each other alone: caching records and hits
    -- changes nothing in the stored tokens that are found, and no run of logins, returns, refreshes,
    -- answers, logouts and writes to other keys changes what the cache tells of a document. So a logout at
    -- the end signs the page out at every time, and whoever signs in next in this tab still finds what
    -- was cached before.
    pub logout-get_cached_document :
        {v w : World} (r : Reach env crypto v w) (ws : List CacheWrite)
        → IsOwnRun r
        → let out = coalesce (logout env (some w.storage)).0 w.storage in
          (get_stored_tokens env (some (apply_writes cache_env ws w.storage))
            ≡ get_stored_tokens env (some w.storage))
          × ((now : ℕ) → is_authenticated env now (some out) ≡ false)
          × ((id : String)
              → get_cached_document cache_env id (some out)
                ≡ get_cached_document cache_env id (some v.storage))
    unfolding logout clear_tokens
    logout-get_cached_document {v} {w} r ws own =
        let out = coalesce (logout env (some w.storage)).0 w.storage in
        (
          read_tokens w.storage (apply_writes cache_env ws w.storage)
              (kept_tokens_run ws w.storage),
          λ now. signed_out env now w.storage,
          λ id. found_again v.storage out id (spares-logout env w.storage ∙ spares-Reach r own),
        )
