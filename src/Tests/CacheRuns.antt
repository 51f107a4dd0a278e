-- ===== src/Tests/CacheRuns.antt =====
-- frontend/lib/documentCache.ts: the theorems on documents at concrete inputs.
use mathlib.Core.List.{Memᴰ}
use mathlib.Core.Quot
use go_analyze.Cache.Order.{AreApart, get_cached_document-History, swap}
use go_analyze.Upload.{initial_upload, UploadState}
use go_analyze.Upload.Run.{ingest_payload_of, run_upload, got, api_failed, Surroundings}
use go_analyze.Pages.Detail.Uploaded.{storage_after, run_upload-ShowsRecord}
use go_analyze.Ui.{field}
use go_analyze.Cache.Runs.{
  known, apply_writes, taken, get_cached_document-known, CacheWrite, searched,
}
use go_analyze.Pages.Detail.{metadata_view, load_document}
use go_analyze.Pages.Detail.Ingested.{load_document-ShowsRecord, ShowsRecord}
use go_analyze.Prelude.{
  ℕ, String, ◌≡◌, refl, ap, subst, fun_ext, inl, inr, true, false, ◌&&◌, ◌||◌, none, some, [], ◌∷◌,
  eq_iff, nat_eq, ◌==◌, if◌then◌else◌, Bool-cases, is_some,
}
use go_analyze.Platform.{Storage, get_item, set_item, empty_storage, try_set_item, File}
use go_analyze.Types.{internal, DocumentRecord, SearchHit}
use go_analyze.Cache.{
  cache_key, CacheMap, empty_cache, put_cached, put_record, put_hit, put_hits, read_cache,
  write_cache, cache_document_record, cache_search_hits, get_cached_document, CacheEnv,
}
use go_analyze.Cache.Laws.{IsCacheJson}

abbrev print : ℕ → String
print n = if nat_eq n 2 then "2" else "1"

abbrev document : DocumentRecord
document = record {
  tenant_id = "t";
  case_id = none;
  filename = "a.pdf";
  content_type = "application/pdf";
  classification = internal;
  sha256 = "00";
  object_uri = "pending://a";
  metadata = [];
  id = "a";
  version = 1;
  lineage_id = "l";
  created_at = "2026-01-01";
}

abbrev hit : SearchHit
hit = record {
  document_id = "b";
  filename = "b.pdf";
  content_type = "application/pdf";
  classification = internal;
  score = 7;
  highlight = none;
  created_at = "2026-01-02";
}

abbrev after_record : CacheMap
after_record = put_record document empty_cache

abbrev after_hits : CacheMap
after_hits = put_hits (hit ∷ []) after_record

abbrev only_hits : CacheMap
only_hits = put_hits (hit ∷ []) empty_cache

-- A JSON text says which of the documents "a" and "b" the cache has.
abbrev cache_env : CacheEnv
cache_env = record {
  stringify = λ c.
      if is_some (c "a")
      then (if is_some (c "b") then "{a,b}" else "{a}")
      else if is_some (c "b")
      then "{b}"
      else "{}";
  parse = λ raw. some (
      if raw == "{a,b}"
      then after_hits
      else if raw == "{a}"
      then after_record
      else if raw == "{b}"
      then only_hits
      else empty_cache);
  room = λ s k v. true;
}

abbrev recorded_write : CacheWrite
recorded_write = CacheWrite.recorded document

abbrev recorded : Storage
recorded = set_item cache_key "{a}" empty_storage

only_hits-IsCacheJson :
    IsCacheJson cache_env (put_hits (hit ∷ []) (read_cache cache_env (some empty_storage)))
unfolding read_cache get_item put_hits put_hit put_cached
only_hits-IsCacheJson = record { parse-stringify = refl }

record-IsCacheJson :
    IsCacheJson cache_env (put_record document (read_cache cache_env (some empty_storage)))
unfolding read_cache get_item put_record put_cached
record-IsCacheJson = record { parse-stringify = refl }

hits-IsCacheJson :
    IsCacheJson cache_env (put_hits (hit ∷ []) (read_cache cache_env (some recorded)))
unfolding read_cache get_item set_item put_hits put_hit put_cached put_record
hits-IsCacheJson = record { parse-stringify = refl }

get_cached_document-known_example :
    get_cached_document cache_env "a"
      (some (apply_writes cache_env (recorded_write ∷ searched (hit ∷ []) ∷ []) empty_storage))
    ≡ known "a"
        (taken cache_env (recorded_write ∷ searched (hit ∷ []) ∷ []) empty_storage)
        (get_cached_document cache_env "a" (some empty_storage))
unfolding cache_document_record write_cache read_cache try_set_item get_item set_item put_record
    put_cached
get_cached_document-known_example =
    get_cached_document-known cache_env "a" (recorded_write ∷ searched (hit ∷ []) ∷ [])
      empty_storage (record-IsCacheJson, (hits-IsCacheJson, tt))

load_document-ShowsRecord_example : ShowsRecord print document (
    metadata_view
      (λ t. t)
      print
      "a"
      (load_document cache_env "a" (cache_search_hits cache_env (hit ∷ []) (some recorded))))
unfolding cache_document_record write_cache read_cache try_set_item get_item set_item put_record
    put_cached
load_document-ShowsRecord_example =
    load_document-ShowsRecord (λ t. t) print cache_env document (hit ∷ []) empty_storage recorded
      record-IsCacheJson hits-IsCacheJson refl refl refl refl refl

abbrev paper : File
paper = record { name = "a.pdf"; mime_type = "application/pdf"; size = 1; bytes = 1 ∷ [] }

-- The content is refused.
abbrev half_way : Surroundings
half_way = record {
  hash = λ f. got "00";
  ingest_reply = λ p. got document;
  content_reply = λ id f. api_failed "Too large.";
  process_reply = λ id. got tt;
  during_hash = λ s. s;
  during_ingest = λ s. s;
  during_content = λ s. s;
  during_process = λ s. s;
}

abbrev filled_in : UploadState
filled_in = record (initial_upload "t") { file = some paper }

run_upload-ShowsRecord_example :
    let w =
      storage_after cache_env (run_upload (λ t. t) "default" half_way filled_in) empty_storage in
    let shown = metadata_view (λ t. t) print "a" (load_document cache_env "a" (some w)) in
    Memᴰ (field "Tenant" "t") shown × Memᴰ (field "SHA-256" "00") shown
unfolding initial_upload ingest_payload_of
run_upload-ShowsRecord_example =
    run_upload-ShowsRecord (λ t. t) "default" half_way cache_env (λ t. t) print filled_in paper "00"
      document empty_storage refl refl refl (record { same_tenant = refl; same_hash = refl })
      record-IsCacheJson refl refl refl

both_orders : after_hits ≡ put_record document only_hits
unfolding put_record put_hits put_hit put_cached
both_orders = fun_ext (λ key. elim (Bool-cases ("a" == key)) [
  | inl e ↦ subst (λ k. after_hits k ≡ put_record document only_hits k) ((eq_iff "a" key).0 e) refl
  | inr n ↦ elim (Bool-cases ("b" == key)) [
    | inl e ↦
        subst (λ k. after_hits k ≡ put_record document only_hits k) ((eq_iff "b" key).0 e) refl
    | inr m ↦ rw (n, m) refl
  ]
])

abbrev hits_only : Storage
hits_only = set_item cache_key "{b}" empty_storage

late_record-IsCacheJson :
    IsCacheJson cache_env (put_record document (read_cache cache_env (some hits_only)))
unfolding read_cache get_item set_item put_hits put_hit put_cached put_record
late_record-IsCacheJson = record { parse-stringify = ap some both_orders }

are_apart : AreApart recorded_write (searched (hit ∷ []))
are_apart key = elim (Bool-cases ("a" == key)) [
  | inl e ↦ subst (λ k. (("a" == k) && (("b" == k) || false)) ≡ false) ((eq_iff "a" key).0 e) refl
  | inr n ↦ rw n refl
]

get_cached_document-History_example :
    get_cached_document cache_env "a"
      (some (apply_writes cache_env (recorded_write ∷ searched (hit ∷ []) ∷ []) empty_storage))
    ≡ get_cached_document cache_env "a"
        (some (apply_writes cache_env (searched (hit ∷ []) ∷ recorded_write ∷ []) empty_storage))
unfolding cache_document_record cache_search_hits write_cache read_cache try_set_item get_item
    set_item put_record put_hits put_hit put_cached
get_cached_document-History_example =
    get_cached_document-History cache_env (recorded_write ∷ searched (hit ∷ []) ∷ [])
      (searched (hit ∷ []) ∷ recorded_write ∷ []) empty_storage
      (record-IsCacheJson, (hits-IsCacheJson, tt))
      (only_hits-IsCacheJson, (late_record-IsCacheJson, tt))
      (Quot.sound (swap [] [] recorded_write (searched (hit ∷ [])) are_apart)) "a"
