-- ===== src/Cache/Runs.antt =====
-- frontend/lib/documentCache.ts: a session's writes to the cache, against one document's history.
use go_analyze.Prelude.{
  String, ◌≡◌, refl, ap, ◌∙◌, ◌⊎◌, inl, inr, Bool, true, false, Option, some, List, [], ◌∷◌, eq_iff,
  ◌==◌, if◌then◌else◌, Bool-cases, coalesce,
}
use go_analyze.Platform.{Storage}
use go_analyze.Types.{DocumentRecord, SearchHit}
use go_analyze.Cache.{
  cache_key, CacheMap, blank, merge_record, put_cached, put_record, put_hits, read_cache,
  write_cache, cache_document_record, cache_search_hits, get_cached_document, CachedDocument,
  CacheEnv,
}
use go_analyze.Cache.Merge.{merged_hits, put_hits-merged_hits}
use go_analyze.Cache.Laws.{read_cache-write_cache, write_cache_full, IsCacheJson}

-- A write: an ingested record, or the hits of a search.
pub data CacheWrite : Type 0 where
  recorded : DocumentRecord → CacheWrite
  searched : List SearchHit → CacheWrite

-- The cache that a write makes of another.
abbrev pub written : CacheWrite → CacheMap → CacheMap
written (recorded r) c = put_record r c
written (searched hits) c = put_hits hits c

-- What a page can know of one document: the records and hits of it, merged in their order.
abbrev pub known : String → List CacheWrite → Option CachedDocument → Option CachedDocument
known key [] old = old
known key (recorded r ∷ ws) old =
    known key ws (if r.id == key then some (merge_record (coalesce old (blank key)) r) else old)
known key (searched hits ∷ ws) old = known key ws (merged_hits key hits old)

known-append :
    (key : String) (v : CacheWrite) (c : CacheMap) (ws : List CacheWrite)
    → known key ws (written v c key) ≡ known key (v ∷ ws) (c key)
unfolding put_record put_cached
known-append key (searched hits) c ws = ap (known key ws) (put_hits-merged_hits key hits c)
known-append key (recorded r) c ws = ap (known key ws) (step (Bool-cases (r.id == key)))
  where
    step :
        (((r.id == key) ≡ true) ⊎ ((r.id == key) ≡ false))
        → put_record r c key
          ≡ (if r.id == key then some (merge_record (coalesce (c key) (blank key)) r) else c key)
    step (inl same) = rw (← (eq_iff r.id key).0 same) refl
    step (inr other) = rw other

module _ (env : CacheEnv) where
  abbrev pub apply_write : CacheWrite → Storage → Storage
  apply_write (recorded r) s = coalesce (cache_document_record env r (some s)) s
  apply_write (searched hits) s = coalesce (cache_search_hits env hits (some s)) s

  abbrev pub apply_writes : List CacheWrite → Storage → Storage
  apply_writes [] s = s
  apply_writes (v ∷ ws) s = apply_writes ws (apply_write v s)

  -- Whether the browser takes a write.
  abbrev pub is_taken : CacheWrite → Storage → Bool
  is_taken v s = env.room s cache_key (env.stringify (written v (read_cache env (some s))))

  -- The writes that the browser takes.
  abbrev pub taken : List CacheWrite → Storage → List CacheWrite
  taken [] s = []
  taken (v ∷ ws) s =
      let rest = taken ws (apply_write v s) in if is_taken v s then v ∷ rest else rest

  -- `JSON.parse` undoes `JSON.stringify` on every cache that is written.
  abbrev pub AllCacheJson : List CacheWrite → Storage → Type 0
  AllCacheJson [] s = Unit {0}
  AllCacheJson (v ∷ ws) s =
      IsCacheJson env (written v (read_cache env (some s))) × AllCacheJson ws (apply_write v s)

  apply_write-write_cache :
      (v : CacheWrite) (s : Storage)
      → apply_write v s
        ≡ coalesce (write_cache env (written v (read_cache env (some s))) (some s)) s
  unfolding cache_document_record cache_search_hits
  apply_write-write_cache (recorded r) s = refl
  apply_write-write_cache (searched hits) s = refl

  write_cache-some :
      (c : CacheMap) (s : Storage)
      → write_cache env c (some s) ≡ some (coalesce (write_cache env c (some s)) s)
  unfolding write_cache
  write_cache-some c s = refl

  read_cache-taken :
      (v : CacheWrite) (s : Storage)
      → IsCacheJson env (written v (read_cache env (some s)))
      → is_taken v s ≡ true
      → read_cache env (some (apply_write v s)) ≡ written v (read_cache env (some s))
  read_cache-taken v s json space =
      let c = written v (read_cache env (some s)) in
      rw (apply_write-write_cache v s, ← write_cache-some c s)
        (read_cache-write_cache env c s json space)

  apply_write-refused : (v : CacheWrite) (s : Storage) → is_taken v s ≡ false → apply_write v s ≡ s
  apply_write-refused v s full = rw (
    apply_write-write_cache v s,
    write_cache_full env (written v (read_cache env (some s))) s full,
  )

  -- The cache implements the history of each document: where `JSON.parse` undoes `JSON.stringify` on
  -- the caches written, what a page finds of a document after any writes is what it found before, with
  -- the records and hits of that document merged in, in their order and no others, of all the writes
  -- that the browser took.
  pub get_cached_document-known :
      (key : String) (ws : List CacheWrite) (s : Storage)
      → AllCacheJson ws s
      → get_cached_document env key (some (apply_writes ws s))
        ≡ known key (taken ws s) (get_cached_document env key (some s))
  unfolding get_cached_document
  get_cached_document-known key [] s json = refl
  get_cached_document-known key (v ∷ ws) s (json, more) = elim (Bool-cases (is_taken v s)) [
    | inl space ↦
        get_cached_document-known key ws (apply_write v s) more
        ∙ (rw (space, read_cache-taken v s json space)
            (known-append key v (read_cache env (some s)) (taken ws (apply_write v s))))
    | inr full ↦
        get_cached_document-known key ws (apply_write v s) more
        ∙ (rw (full, apply_write-refused v s full) refl)
  ]
