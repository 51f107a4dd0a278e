-- ===== src/Cache.antt =====
-- frontend/lib/documentCache.ts: what the session has seen of documents, in sessionStorage.
pub mod Merge
pub mod Laws
pub mod Runs
pub mod Order
use go_analyze.Prelude.{ℕ, String, Option, none, some, List, [], ◌∷◌, ◌==◌, if◌then◌else◌, coalesce}
use go_analyze.Platform.{Storage, get_item, Room, try_set_item}
use go_analyze.Types.{ClassificationLevel, DocumentRecord, SearchHit}

abbrev pub cache_key : String
cache_key = "goanalyze_document_cache_v1"

-- `Partial<DocumentRecord> & Partial<SearchHit>` with its `document_id`. A field that the contract
-- lets be `null` is absent, `some none` or a text.
pub record CachedDocument : Type 0 where
  pub document_id : String
  pub tenant_id : Option String
  pub case_id : Option (Option String)
  pub filename : Option String
  pub content_type : Option String
  pub classification : Option ClassificationLevel
  pub sha256 : Option String
  pub object_uri : Option String
  pub metadata : Option (List (String × String))
  pub id : Option String
  pub version : Option ℕ
  pub lineage_id : Option String
  pub created_at : Option String
  pub score : Option ℕ
  pub highlight : Option (Option String)

-- `Record<string, CachedDocument>`.
abbrev pub CacheMap : Type 0
CacheMap = String → Option CachedDocument

abbrev pub empty_cache : CacheMap
empty_cache _ = none

-- `JSON.stringify` and `JSON.parse` at the type of the cache, with `none` for an exception, and
-- whether the storage takes a write.
pub record CacheEnv : Type 0 where
  pub stringify : CacheMap → String
  pub parse : String → Option CacheMap
  pub room : Room

-- `{ ...undefined, … }` begins with no field.
abbrev pub blank : String → CachedDocument
blank id = record {
  document_id = id;
  tenant_id = none;
  case_id = none;
  filename = none;
  content_type = none;
  classification = none;
  sha256 = none;
  object_uri = none;
  metadata = none;
  id = none;
  version = none;
  lineage_id = none;
  created_at = none;
  score = none;
  highlight = none;
}

-- A field that the spread object may lack.
abbrev pub over {ℓ} : {A : Type ℓ} → Option A → Option A → Option A
over none old = old
over (some a) old = some a

-- `{ ...old, ...record, document_id: record.id }`.
unfoldable pub merge_record : CachedDocument → DocumentRecord → CachedDocument
merge_record old r = record old {
  document_id = r.id;
  tenant_id = some r.tenant_id;
  case_id = over r.case_id old.case_id;
  filename = some r.filename;
  content_type = some r.content_type;
  classification = some r.classification;
  sha256 = some r.sha256;
  object_uri = some r.object_uri;
  metadata = some r.metadata;
  id = some r.id;
  version = some r.version;
  lineage_id = some r.lineage_id;
  created_at = some r.created_at;
}

-- `{ ...old, ...hit }`.
unfoldable pub merge_hit : CachedDocument → SearchHit → CachedDocument
merge_hit old hit = record old {
  document_id = hit.document_id;
  filename = some hit.filename;
  content_type = some hit.content_type;
  classification = some hit.classification;
  score = some hit.score;
  highlight = over hit.highlight old.highlight;
  created_at = some hit.created_at;
}

-- `cache[key] = doc`.
unfoldable pub put_cached : String → CachedDocument → CacheMap → CacheMap
put_cached key doc cache k = if key == k then some doc else cache k

unfoldable pub put_record : DocumentRecord → CacheMap → CacheMap
put_record r cache = put_cached r.id (merge_record (coalesce (cache r.id) (blank r.id)) r) cache

unfoldable pub put_hit : SearchHit → CacheMap → CacheMap
put_hit hit cache =
    put_cached hit.document_id
      (merge_hit (coalesce (cache hit.document_id) (blank hit.document_id)) hit) cache

-- The loop of `cacheSearchHits`.
unfoldable pub put_hits : List SearchHit → CacheMap → CacheMap
put_hits [] cache = cache
put_hits (hit ∷ hits) cache = put_hits hits (put_hit hit cache)

module _ (env : CacheEnv) where
  -- `none` is the server, where there is no window.
  unfoldable pub read_cache : Option Storage → CacheMap
  read_cache none = empty_cache
  read_cache (some s) = coalesce (env.parse (coalesce (get_item cache_key s) "{}")) empty_cache

  -- A write that the browser refuses is passed over.
  unfoldable pub write_cache : CacheMap → Option Storage → Option Storage
  write_cache cache none = none
  write_cache cache (some s) =
      some (coalesce (try_set_item env.room cache_key (env.stringify cache) s) s)

  unfoldable pub cache_document_record : DocumentRecord → Option Storage → Option Storage
  cache_document_record r w = write_cache (put_record r (read_cache w)) w

  unfoldable pub cache_search_hits : List SearchHit → Option Storage → Option Storage
  cache_search_hits hits w = write_cache (put_hits hits (read_cache w)) w

  unfoldable pub get_cached_document : String → Option Storage → Option CachedDocument
  get_cached_document document_id w = read_cache w document_id
