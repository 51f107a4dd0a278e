-- ===== src/Cache/Merge.antt =====
-- frontend/lib/documentCache.ts: what the merges keep and what they replace.
use go_analyze.Prelude.{
  String, ◌≡◌, refl, ap, ◌∙◌, ◌⊎◌, inl, inr, true, false, Option, some, List, [], ◌∷◌, eq_iff, ◌==◌,
  if◌then◌else◌, Bool-cases, coalesce,
}
use go_analyze.Types.{DocumentRecord, SearchHit}
use go_analyze.Cache.{
  CacheMap, blank, merge_record, merge_hit, put_cached, put_hit, put_hits, CachedDocument,
}

-- The last hit of a document in a list, merged into what was known; the hits before it are merged
-- first.
abbrev pub merged_hits : String → List SearchHit → Option CachedDocument → Option CachedDocument
merged_hits key [] old = old
merged_hits key (hit ∷ hits) old =
    merged_hits key hits
      (if hit.document_id == key then some (merge_hit (coalesce old (blank key)) hit) else old)

pub put_hits-merged_hits :
    (key : String) (hits : List SearchHit) (cache : CacheMap)
    → put_hits hits cache key ≡ merged_hits key hits (cache key)
unfolding put_hits put_hit put_cached
put_hits-merged_hits key [] cache = refl
put_hits-merged_hits key (hit ∷ hits) cache =
    put_hits-merged_hits key hits (put_hit hit cache)
    ∙ ap (merged_hits key hits) (step (Bool-cases (hit.document_id == key)))
  where
    step :
        (((hit.document_id == key) ≡ true) ⊎ ((hit.document_id == key) ≡ false))
        → put_hit hit cache key ≡ (
            if hit.document_id == key
            then some (merge_hit (coalesce (cache key) (blank key)) hit)
            else cache key)
    step (inl same) = rw (← (eq_iff hit.document_id key).0 same) refl
    step (inr other) = rw other

-- What only an ingested record says, and a hit does not touch.
abbrev pub Remembers : DocumentRecord → CachedDocument → Type 0
Remembers r d =
    (d.tenant_id ≡ some r.tenant_id)
    × (d.sha256 ≡ some r.sha256)
    × (d.object_uri ≡ some r.object_uri)
    × (d.metadata ≡ some r.metadata)
    × (d.version ≡ some r.version)
    × (d.lineage_id ≡ some r.lineage_id)
    × (d.id ≡ some r.id)

pub merge_record-Remembers :
    (old : CachedDocument) (r : DocumentRecord) → Remembers r (merge_record old r)
unfolding merge_record
merge_record-Remembers old r = (refl, refl, refl, refl, refl, refl, refl)

merge_hit-Remembers :
    (r : DocumentRecord) (d : CachedDocument) (hit : SearchHit)
    → Remembers r d
    → Remembers r (merge_hit d hit)
unfolding merge_hit
merge_hit-Remembers r d hit h = h

pub merged_hits-Remembers :
    (r : DocumentRecord) (key : String) (hits : List SearchHit) (d : CachedDocument)
    → Remembers r d
    → (e : CachedDocument) × (merged_hits key hits (some d) ≡ some e) × Remembers r e
merged_hits-Remembers r key [] d h = (d, refl, h)
merged_hits-Remembers r key (hit ∷ hits) d h = elim (Bool-cases (hit.document_id == key)) [
  | inl same ↦
      rw same (merged_hits-Remembers r key hits (merge_hit d hit) (merge_hit-Remembers r d hit h))
  | inr other ↦ rw other (merged_hits-Remembers r key hits d h)
]
