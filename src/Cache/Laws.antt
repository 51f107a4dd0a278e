-- ===== src/Cache/Laws.antt =====
-- frontend/lib/documentCache.ts: what a page finds after the cache was written.
use go_analyze.Prelude.{
  String, ◌≡◌, ap, ◌∙◌, inl, inr, true, false, some, List, eq_refl, if◌then◌else◌, Bool-cases,
  coalesce,
}
use go_analyze.Platform.{Storage, try_set_item, get_item-set_item_self}
use go_analyze.Types.{DocumentRecord, SearchHit}
use go_analyze.Cache.{
  cache_key, CacheMap, blank, merge_record, put_cached, put_record, put_hits, read_cache,
  write_cache, cache_document_record, cache_search_hits, get_cached_document, CachedDocument,
  CacheEnv,
}
use go_analyze.Cache.Merge.{
  merged_hits, put_hits-merged_hits, Remembers, merge_record-Remembers, merged_hits-Remembers,
}

-- `JSON.parse` undoes `JSON.stringify` on this cache.
pub record IsCacheJson (env : CacheEnv) (c : CacheMap) : Type 0 where
  pub parse-stringify : env.parse (env.stringify c) ≡ some c

pub put_record_self :
    (r : DocumentRecord) (c : CacheMap)
    → put_record r c r.id ≡ some (merge_record (coalesce (c r.id) (blank r.id)) r)
unfolding put_record put_cached
put_record_self r c = rw (eq_refl r.id)

module _ (env : CacheEnv) where
  pub read_cache-write_cache :
      (c : CacheMap) (s : Storage)
      → IsCacheJson env c
      → env.room s cache_key (env.stringify c) ≡ true
      → read_cache env (write_cache env c (some s)) ≡ c
  unfolding read_cache write_cache try_set_item
  read_cache-write_cache c s json space = rw (
    write_cache,
    space,
    get_item-set_item_self cache_key (env.stringify c) s,
    json.parse-stringify,
  )

  pub write_cache_full :
      (c : CacheMap) (s : Storage)
      → env.room s cache_key (env.stringify c) ≡ false
      → write_cache env c (some s) ≡ some s
  unfolding write_cache try_set_item
  write_cache_full c s full = rw (write_cache, full)

  cached_hits :
      (key : String) (hits : List SearchHit) (s : Storage)
      → IsCacheJson env (put_hits hits (read_cache env (some s)))
      → env.room s cache_key (env.stringify (put_hits hits (read_cache env (some s)))) ≡ true
      → get_cached_document env key (cache_search_hits env hits (some s))
        ≡ merged_hits key hits (get_cached_document env key (some s))
  unfolding cache_search_hits get_cached_document
  cached_hits key hits s json space =
      rw (read_cache-write_cache (put_hits hits (read_cache env (some s))) s json space)
        (put_hits-merged_hits key hits (read_cache env (some s)))

  -- Where `JSON.parse` undoes `JSON.stringify` on the cache with the hits: after a list of hits is
  -- cached, a page finds of any document what it found before, with the hits of that document merged
  -- in, the last one on top, if the browser took the write.
  get_cached_document-cache_search_hits :
      (key : String) (hits : List SearchHit) (s : Storage)
      → IsCacheJson env (put_hits hits (read_cache env (some s)))
      → get_cached_document env key (cache_search_hits env hits (some s)) ≡ (
          if env.room s cache_key (env.stringify (put_hits hits (read_cache env (some s))))
          then merged_hits key hits (get_cached_document env key (some s))
          else get_cached_document env key (some s))
  unfolding cache_search_hits
  get_cached_document-cache_search_hits key hits s json =
      let c = put_hits hits (read_cache env (some s)) in
      elim (Bool-cases (env.room s cache_key (env.stringify c))) [
        | inl space ↦ cached_hits key hits s json space ∙ rw space
        | inr full ↦ ap (get_cached_document env key) (write_cache_full c s full) ∙ rw full
      ]

  pub get_cached_document-record :
      (r : DocumentRecord) (s s' : Storage)
      → IsCacheJson env (put_record r (read_cache env (some s)))
      → cache_document_record env r (some s) ≡ some s'
      → env.room s cache_key (env.stringify (put_record r (read_cache env (some s)))) ≡ true
      → get_cached_document env r.id (some s') ≡ put_record r (read_cache env (some s)) r.id
  unfolding cache_document_record get_cached_document
  get_cached_document-record r s s' json written space =
      rw (← written, read_cache-write_cache (put_record r (read_cache env (some s))) s json space)

  -- Where `JSON.parse` undoes `JSON.stringify` on both caches and the browser takes both writes: a document that
  -- was ingested in the session keeps its tenant, hash, address, metadata, version, lineage and id
  -- through any list of search hits that is cached after it.
  pub ingested_survives :
      (r : DocumentRecord) (hits : List SearchHit) (s s' : Storage)
      → IsCacheJson env (put_record r (read_cache env (some s)))
      → IsCacheJson env (put_hits hits (read_cache env (some s')))
      → cache_document_record env r (some s) ≡ some s'
      → env.room s cache_key (env.stringify (put_record r (read_cache env (some s)))) ≡ true
      → env.room s' cache_key (env.stringify (put_hits hits (read_cache env (some s')))) ≡ true
      → (d : CachedDocument) × (get_cached_document env r.id (cache_search_hits env hits (some s'))
          ≡ some d)
        × Remembers r d
  ingested_survives r hits s s' json json' written space space' =
      let found : get_cached_document env r.id (some s')
          ≡ put_record r (read_cache env (some s)) r.id =
        get_cached_document-record r s s' json written space in
      let c = read_cache env (some s) in
      let old = merge_record (coalesce (c r.id) (blank r.id)) r in
      let (d, merged, remembered) =
        merged_hits-Remembers r r.id hits old
          (merge_record-Remembers (coalesce (c r.id) (blank r.id)) r) in
      (
        d,
        cached_hits r.id hits s' json' space'
            ∙ (ap (merged_hits r.id hits) (found ∙ put_record_self r c) ∙ merged),
        remembered,
      )
