-- ===== src/Pages/Detail/Ingested.antt =====
-- frontend/app/documents/[document_id]/page.tsx with frontend/lib/documentCache.ts: what the page
-- shows of a document that was ingested in the session.
use mathlib.Core.List.{Memᴰ}
use mathlib.Core.List.Memᴰ
use go_analyze.Prelude.{
  ℕ, String, ◌≡◌, refl, true, false, Option, none, some, List, [], ◌∷◌, coalesce, is_empty,
}
use go_analyze.Platform.{Storage}
use go_analyze.Types.{DocumentRecord, SearchHit}
use go_analyze.Cache.{
  cache_key, put_record, put_hits, read_cache, cache_document_record, cache_search_hits,
  CachedDocument, CacheEnv,
}
use go_analyze.Cache.Merge.{Remembers}
use go_analyze.Cache.Laws.{ingested_survives, IsCacheJson}
use go_analyze.Ui.{when_some, Item, field}
use go_analyze.Pages.Detail.{text_field, metadata_view, load_document}

-- The card has these fields of the record.
pub record ShowsRecord (print : ℕ → String) (r : DocumentRecord) (shown : List Item) : Type 0 where
  pub tenant_shown : Memᴰ (field "Tenant" r.tenant_id) shown
  pub version_shown : Memᴰ (field "Version" (print r.version)) shown
  pub hash_shown : Memᴰ (field "SHA-256" r.sha256) shown

text_field_shown :
    (label : String) (t : Option String) (v : String)
    → t ≡ some v
    → is_empty v ≡ false
    → Memᴰ (field label v) (text_field label t)
text_field_shown label t v e full = rw (e, full) (Memᴰ.head refl)

version_field_shown :
    (make : ℕ → Item) (t : Option ℕ) (v : ℕ)
    → t ≡ some v
    → Memᴰ (make v) (when_some t (λ n. make n ∷ []))
version_field_shown make t v e = rw e (Memᴰ.head refl)

module _ (format : String → String) (print : ℕ → String) where
  pub metadata_view-ShowsRecord :
      (r : DocumentRecord) (d : CachedDocument)
      → Remembers r d
      → is_empty r.tenant_id ≡ false
      → is_empty r.sha256 ≡ false
      → ShowsRecord print r (metadata_view format print r.id (some d))
  unfolding metadata_view
  metadata_view-ShowsRecord r d (tenant, hash, _, _, version, _, _) full full' = record {
    tenant_shown = Memᴰ.tail (
        Memᴰ.append_right _ (
          Memᴰ.tail (
            Memᴰ.tail (
              Memᴰ.tail (
                Memᴰ.append_left _
                  (text_field_shown "Tenant" d.tenant_id r.tenant_id tenant full))))));
    version_shown = Memᴰ.tail (
        Memᴰ.append_right _ (
          Memᴰ.tail (
            Memᴰ.tail (
              Memᴰ.tail (
                Memᴰ.append_right (text_field "Tenant" d.tenant_id) (
                  Memᴰ.append_right (text_field "Case" (coalesce d.case_id none)) (
                    Memᴰ.append_left _ (
                      version_field_shown (λ v. field "Version" (print v)) d.version r.version
                        version))))))));
    hash_shown = Memᴰ.tail (
        Memᴰ.append_right _ (
          Memᴰ.tail (
            Memᴰ.tail (
              Memᴰ.tail (
                Memᴰ.append_right (text_field "Tenant" d.tenant_id) (
                  Memᴰ.append_right (text_field "Case" (coalesce d.case_id none)) (
                    Memᴰ.append_right (when_some d.version (λ v. field "Version" (print v) ∷ [])) (
                      Memᴰ.append_left _
                        (text_field_shown "SHA-256" d.sha256 r.sha256 hash full')))))))));
  }

  -- Where `JSON.parse` undoes `JSON.stringify` on both caches and the browser takes both writes: the
  -- page of a document that was ingested in the session shows its tenant, version and hash, also after
  -- a search has cached its hits, whatever these say of the document; for a tenant and a hash that are
  -- not empty.
  pub load_document-ShowsRecord :
      (env : CacheEnv) (r : DocumentRecord) (hits : List SearchHit) (s s' : Storage)
      → IsCacheJson env (put_record r (read_cache env (some s)))
      → IsCacheJson env (put_hits hits (read_cache env (some s')))
      → cache_document_record env r (some s) ≡ some s'
      → env.room s cache_key (env.stringify (put_record r (read_cache env (some s)))) ≡ true
      → env.room s' cache_key (env.stringify (put_hits hits (read_cache env (some s')))) ≡ true
      → is_empty r.tenant_id ≡ false
      → is_empty r.sha256 ≡ false
      → ShowsRecord print r (
          metadata_view format print r.id
            (load_document env r.id (cache_search_hits env hits (some s'))))
  unfolding load_document
  load_document-ShowsRecord env r hits s s' json json' written space space' full full' =
      let (d, found, remembered) =
        ingested_survives env r hits s s' json json' written space space' in
      rw found (metadata_view-ShowsRecord r d remembered full full')
