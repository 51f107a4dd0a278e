-- ===== src/Pages/Detail/Uploaded.antt =====
-- frontend/components/documents/DocumentUpload.tsx, frontend/lib/documentCache.ts and
-- frontend/app/documents/[document_id]/page.tsx together: the page of a document that was uploaded.
use mathlib.Core.List.{Memᴰ}
use go_analyze.Pages.Detail.Ingested.{metadata_view-ShowsRecord}
use go_analyze.Cache.Merge.{Remembers, merge_record-Remembers}
use go_analyze.Cache.Laws.{put_record_self, get_cached_document-record, IsCacheJson}
use go_analyze.Ui.{field}
use go_analyze.Pages.Detail.{metadata_view, load_document}
use go_analyze.Prelude.{
  ℕ, String, ◌≡◌, refl, ap, ◌∙◌, subst, inl, inr, Bool, true, false, none, some, List, coalesce,
  is_empty, text_or,
}
use go_analyze.Platform.{Storage, File}
use go_analyze.Types.{DocumentIngestRequest, DocumentRecord}
use go_analyze.Cache.{
  cache_key, blank, merge_record, put_record, read_cache, write_cache, cache_document_record,
  get_cached_document, CachedDocument, CacheEnv,
}
use go_analyze.Upload.{UploadState}
use go_analyze.Upload.Run.{
  ingest_payload_of, run_process, run_content, run_ingest, run_hash, run_upload,
  run_upload-chosen_file, Reply-cases, got, Call, Surroundings, Uploaded,
}

-- The storage after a run of the form: `runUpload` caches the record as soon as it has it.
abbrev pub storage_after : CacheEnv → Uploaded → Storage → Storage
storage_after cache u s = elim u.cached [
  | none ↦ s
  | some r ↦ coalesce (cache_document_record cache r (some s)) s
]

-- What is documented of the first endpoint: the record repeats the tenant and the hash of its request.
pub record IsEcho (payload : DocumentIngestRequest) (r : DocumentRecord) : Type 0 where
  pub same_tenant : r.tenant_id ≡ payload.tenant_id
  pub same_hash : r.sha256 ≡ payload.sha256

module _ (encode : String → String) (default_tenant_id : String) (env : Surroundings) where
  run_process-cached :
      (auto : Bool) (r : DocumentRecord) (calls : List Call) (s : UploadState)
      → (run_process encode default_tenant_id env auto r calls s).cached ≡ some r
  unfolding run_process
  run_process-cached false r calls s = refl
  run_process-cached true r calls s = elim (Reply-cases (env.process_reply r.id)) [
    | inl (u, e) ↦ rw (run_process, e)
    | inr (inl (m, e)) ↦ rw (run_process, e)
    | inr (inr e) ↦ rw (run_process, e)
  ]

  run_content-cached :
      (auto : Bool) (f : File) (r : DocumentRecord) (calls : List Call) (s : UploadState)
      → (run_content encode default_tenant_id env auto f r calls s).cached ≡ some r
  unfolding run_content
  run_content-cached auto f r calls s = elim (Reply-cases (env.content_reply r.id f)) [
    | inl (u, e) ↦ rw (run_content, e) (run_process-cached auto r _ _)
    | inr (inl (m, e)) ↦ rw (run_content, e)
    | inr (inr e) ↦ rw (run_content, e)
  ]

  run_upload-cached :
      (s : UploadState) (f : File) (sha256 : String) (r : DocumentRecord)
      → s.file ≡ some f
      → env.hash f ≡ got sha256
      → env.ingest_reply (ingest_payload_of encode default_tenant_id s f sha256) ≡ got r
      → (run_upload encode default_tenant_id env s).cached ≡ some r
  unfolding run_hash run_ingest
  run_upload-cached s f sha256 r chosen hashed accepted =
      rw
        (
          run_upload-chosen_file encode default_tenant_id env s f chosen,
          run_hash,
          hashed,
          run_ingest,
          accepted,
        )
        (run_content-cached s.auto_process f r _ _)

  module _ (cache : CacheEnv) (format : String → String) (print : ℕ → String) where
    remembered_record :
        (r : DocumentRecord) (w w' : Storage)
        → IsCacheJson cache (put_record r (read_cache cache (some w)))
        → cache.room w cache_key (cache.stringify (put_record r (read_cache cache (some w)))) ≡ true
        → cache_document_record cache r (some w) ≡ some w'
        → (d : CachedDocument) × (get_cached_document cache r.id (some w') ≡ some d) × Remembers r d
    remembered_record r w w' json space written =
        let c = read_cache cache (some w) in
        (
          merge_record (coalesce (c r.id) (blank r.id)) r,
          get_cached_document-record cache r w w' json written space ∙ put_record_self r c,
          merge_record-Remembers (coalesce (c r.id) (blank r.id)) r,
        )

    -- A file whose record the API has taken, by a record that repeats the tenant and the hash of the
    -- request: whatever becomes of its content and its processing, and whatever is done to the form
    -- meanwhile, the page of the document then shows the tenant of the form, or the default one, and
    -- the hash of the file, if these are not empty. The browser takes the write of the cache, and
    -- `JSON.parse` undoes `JSON.stringify` on it.
    pub run_upload-ShowsRecord :
        (s : UploadState) (f : File) (sha256 : String) (r : DocumentRecord) (w : Storage)
        → let payload = ingest_payload_of encode default_tenant_id s f sha256 in
          let tenant = text_or s.tenant_id default_tenant_id in
          let w' = storage_after cache (run_upload encode default_tenant_id env s) w in
          let shown = metadata_view format print r.id (load_document cache r.id (some w')) in
          s.file ≡ some f
          → env.hash f ≡ got sha256
          → env.ingest_reply payload ≡ got r
          → IsEcho payload r
          → IsCacheJson cache (put_record r (read_cache cache (some w)))
          → cache.room w cache_key (cache.stringify (put_record r (read_cache cache (some w))))
            ≡ true
          → is_empty tenant ≡ false
          → is_empty sha256 ≡ false
          → Memᴰ (field "Tenant" tenant) shown × Memᴰ (field "SHA-256" sha256) shown
    unfolding load_document ingest_payload_of
    run_upload-ShowsRecord s f sha256 r w chosen hashed accepted echo json space full full' =
        let made = run_upload-cached s f sha256 r chosen hashed accepted in
        let (d, found, remembered) =
          remembered_record r w (coalesce (cache_document_record cache r (some w)) w) json space
            (unfold cache_document_record write_cache in refl) in
        let shows =
          metadata_view-ShowsRecord format print r d remembered
            (ap is_empty echo.same_tenant ∙ full) (ap is_empty echo.same_hash ∙ full') in
        rw (made, found)
          (
            subst (λ t. Memᴰ (field "Tenant" t) (metadata_view format print r.id (some d)))
                echo.same_tenant shows.tenant_shown,
            subst (λ t. Memᴰ (field "SHA-256" t) (metadata_view format print r.id (some d)))
                echo.same_hash shows.hash_shown,
          )
