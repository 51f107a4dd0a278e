-- ===== src/Upload/Steps.antt =====
-- frontend/components/documents/DocumentUpload.tsx: what a run of `runUpload` calls and leaves.
use go_analyze.Prelude.{
  String, ◌≡◌, refl, inl, inr, Bool, true, false, some, List, [], ◌∷◌, ◌++◌, arith, if◌then◌else◌,
}
use go_analyze.Platform.{File}
use go_analyze.Types.{DocumentRecord}
use go_analyze.Upload.{begin, after_ingest, finish, fail, UploadState}
use go_analyze.Upload.Run.{
  ingest_payload_of, run_process, run_content, run_ingest, run_hash, run_upload,
  run_upload-chosen_file, Reply-cases, got, Call, ingest_call, content_call, process_call,
  Surroundings,
}

module _ (encode : String → String) (default_tenant_id : String) (env : Surroundings) where
  -- The calls that a run may make for a file: each one only if all before it succeeded, with the id
  -- that the first one brought, and the last one only if processing was asked for at the click.
  pub data Trail (s : UploadState) (f : File) (calls : List Call) : Type 0 where
    nothing_sent : calls ≡ [] → Trail s f calls
    ingest_sent :
        (sha256 : String)
        → env.hash f ≡ got sha256
        → calls ≡ ingest_call (ingest_payload_of encode default_tenant_id s f sha256) ∷ []
        → Trail s f calls
    content_sent :
        (sha256 : String) (r : DocumentRecord)
        → env.hash f ≡ got sha256
        → env.ingest_reply (ingest_payload_of encode default_tenant_id s f sha256) ≡ got r
        → calls
          ≡ ingest_call (ingest_payload_of encode default_tenant_id s f sha256)
            ∷ content_call r.id f
            ∷ []
        → Trail s f calls
    process_sent :
        (sha256 : String) (r : DocumentRecord)
        → env.hash f ≡ got sha256
        → env.ingest_reply (ingest_payload_of encode default_tenant_id s f sha256) ≡ got r
        → env.content_reply r.id f ≡ got tt
        → s.auto_process ≡ true
        → calls
          ≡ ingest_call (ingest_payload_of encode default_tenant_id s f sha256)
            ∷ content_call r.id f
            ∷ process_call r.id
            ∷ []
        → Trail s f calls

  run_process-calls :
      (auto : Bool) (r : DocumentRecord) (calls : List Call) (s : UploadState)
      → (run_process encode default_tenant_id env auto r calls s).calls
        ≡ (if auto then calls ++ process_call r.id ∷ [] else calls)
  unfolding run_process
  run_process-calls false r calls s = refl
  run_process-calls true r calls s = ground arith

  run_process_idle :
      (auto : Bool) (r : DocumentRecord) (calls : List Call) (s : UploadState)
      → (run_process encode default_tenant_id env auto r calls s).form.busy ≡ false
  unfolding run_process finish fail
  run_process_idle false r calls s = refl
  run_process_idle true r calls s = ground arith

  run_content_idle :
      (auto : Bool) (f : File) (r : DocumentRecord) (calls : List Call) (s : UploadState)
      → (run_content encode default_tenant_id env auto f r calls s).form.busy ≡ false
  unfolding run_content fail
  run_content_idle auto f r calls s = ground (
    arith,
    run_process_idle auto r (calls ++ content_call r.id f ∷ [])
        (env.during_content (after_ingest r s)),
  )

  run_ingest_idle :
      (c : UploadState) (f : File) (h : String) (s : UploadState)
      → (run_ingest encode default_tenant_id env c f h s).form.busy ≡ false
  unfolding run_ingest fail
  run_ingest_idle c f h s =
      let p = ingest_payload_of encode default_tenant_id c f h in
      elim (Reply-cases (env.ingest_reply p)) [
        | inl (r, e) ↦
            rw (run_ingest, e)
              (run_content_idle c.auto_process f r (ingest_call p ∷ []) (env.during_ingest s))
        | inr (inl (m, e)) ↦ rw (run_ingest, e)
        | inr (inr e) ↦ rw (run_ingest, e)
      ]

  run_process-Trail :
      (auto : Bool) (c : UploadState) (f : File) (h : String) (r : DocumentRecord) (s : UploadState)
      → c.auto_process ≡ auto
      → env.hash f ≡ got h
      → env.ingest_reply (ingest_payload_of encode default_tenant_id c f h) ≡ got r
      → env.content_reply r.id f ≡ got tt
      → Trail c f
          (run_process encode default_tenant_id env auto r
            (ingest_call (ingest_payload_of encode default_tenant_id c f h)
              ∷ content_call r.id f
              ∷ [])
            s).calls
  run_process-Trail true c f h r s asked hashed made sent =
      rw (run_process-calls true r _ s) (process_sent h r hashed made sent asked refl)
  run_process-Trail false c f h r s asked hashed made sent =
      rw (run_process-calls false r _ s) (content_sent h r hashed made refl)

  run_content-Trail :
      (c : UploadState) (f : File) (h : String) (r : DocumentRecord) (s : UploadState)
      → env.hash f ≡ got h
      → env.ingest_reply (ingest_payload_of encode default_tenant_id c f h) ≡ got r
      → Trail c f
          (run_content encode default_tenant_id env c.auto_process f r
            (ingest_call (ingest_payload_of encode default_tenant_id c f h) ∷ [])
            s).calls
  unfolding run_content
  run_content-Trail c f h r s hashed made = elim (Reply-cases (env.content_reply r.id f)) [
    | inl (u, e) ↦
        rw (run_content, e)
          (run_process-Trail c.auto_process c f h r (env.during_content (after_ingest r s)) refl
            hashed made e)
    | inr (inl (m, e)) ↦ rw (run_content, e) (content_sent h r hashed made refl)
    | inr (inr e) ↦ rw (run_content, e) (content_sent h r hashed made refl)
  ]

  run_ingest-Trail :
      (c : UploadState) (f : File) (h : String)
      → env.hash f ≡ got h
      → (s : UploadState) → Trail c f (run_ingest encode default_tenant_id env c f h s).calls
  unfolding run_ingest
  run_ingest-Trail c f h hashed s =
      let p = ingest_payload_of encode default_tenant_id c f h in
      elim (Reply-cases (env.ingest_reply p)) [
        | inl (r, e) ↦ rw (run_ingest, e) (run_content-Trail c f h r (env.during_ingest s) hashed e)
        | inr (inl (m, e)) ↦ rw (run_ingest, e) (ingest_sent h hashed refl)
        | inr (inr e) ↦ rw (run_ingest, e) (ingest_sent h hashed refl)
      ]

  run_hash_idle :
      (s : UploadState) (f : File) → (run_hash encode default_tenant_id env s f).form.busy ≡ false
  unfolding run_hash fail
  run_hash_idle s f = elim (Reply-cases (env.hash f)) [
    | inl (h, e) ↦ rw (run_hash, e) (run_ingest_idle s f h (env.during_hash (begin s)))
    | inr (inl (m, e)) ↦ rw (run_hash, e)
    | inr (inr e) ↦ rw (run_hash, e)
  ]

  run_hash-Trail :
      (s : UploadState) (f : File) → Trail s f (run_hash encode default_tenant_id env s f).calls
  unfolding run_hash
  run_hash-Trail s f = elim (Reply-cases (env.hash f)) [
    | inl (h, e) ↦ rw (run_hash, e) (run_ingest-Trail s f h e (env.during_hash (begin s)))
    | inr (inl (m, e)) ↦ rw (run_hash, e) (nothing_sent refl)
    | inr (inr e) ↦ rw (run_hash, e) (nothing_sent refl)
  ]

  -- A run for a chosen file ends with the form no longer busy, however the calls end and whatever
  -- the user does to the form meanwhile.
  pub run_upload_idle :
      (s : UploadState) (f : File)
      → s.file ≡ some f
      → (run_upload encode default_tenant_id env s).form.busy ≡ false
  run_upload_idle s f chosen =
      rw (run_upload-chosen_file encode default_tenant_id env s f chosen) (run_hash_idle s f)

  -- Whatever the user does to the form meanwhile, a run for a chosen file makes the calls of a
  -- `Trail`: the record first, then the content under the id of that record, then the processing of
  -- that id, each only after the one before it succeeded.
  pub run_upload-Trail :
      (s : UploadState) (f : File)
      → s.file ≡ some f
      → Trail s f (run_upload encode default_tenant_id env s).calls
  run_upload-Trail s f chosen =
      rw (run_upload-chosen_file encode default_tenant_id env s f chosen) (run_hash-Trail s f)
