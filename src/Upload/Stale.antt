-- ===== src/Upload/Stale.antt =====
-- frontend/components/documents/DocumentUpload.tsx: what a run leaves of an earlier one, and of a file
-- that is chosen while it is under way.
use go_analyze.Platform.{File}
use go_analyze.Upload.View.{view_upload}
use go_analyze.Prelude.{
  String, ◌≡◌, refl, ap, ◌∙◌, Bool, false, none, some, List, [], ◌∷◌, is_empty,
}
use go_analyze.Types.{DocumentRecord}
use go_analyze.Upload.{
  pick_file, begin, after_ingest, after_content, finish, fail, done, UploadState,
}
use go_analyze.Upload.Run.{
  ingest_payload_of, run_process, run_content, run_ingest, run_hash, run_upload,
  run_upload-chosen_file, got, api_failed, Call, ingest_call, content_call, Surroundings, Uploaded,
}
use go_analyze.Upload.Ends.{IsQuiet}

banners :
    (s : UploadState) (r : DocumentRecord) (m : String)
    → s.steps.content ≡ done
    → s.ingested ≡ some r
    → is_empty m ≡ false
    → ((view_upload (fail m (begin s))).error_banner ≡ some m)
      × ((view_upload (fail m (begin s))).success_banner ≡ some (r.filename, r.id))
unfolding view_upload fail begin
banners s r m content made full = (rw full, rw (content, made))

-- The form after another file was picked during the second request.
picked : (g : File) (r : DocumentRecord) (t : UploadState) → UploadState
picked g r t = finish (after_content false (pick_file (some g) (after_ingest r t)))

picked_shows :
    (g : File) (r : DocumentRecord) (t : UploadState)
    → ((picked g r t).file ≡ some g) × ((picked g r t).steps.content ≡ done)
unfolding picked finish after_content pick_file
picked_shows g r t = (refl, refl)

module _ (encode : String → String) (default_tenant_id : String) (env : Surroundings) where
  run_hash-refusal :
      (q : IsQuiet env) (s : UploadState) (f : File) (h message : String)
      → env.hash f ≡ got h
      → env.ingest_reply (ingest_payload_of encode default_tenant_id s f h) ≡ api_failed message
      → run_hash encode default_tenant_id env s f ≡ record {
        form = fail message (begin s);
        calls = ingest_call (ingest_payload_of encode default_tenant_id s f h) ∷ [];
        cached = none;
      }
  unfolding run_hash run_ingest
  run_hash-refusal q s f h message hashed refused = rw (
    run_hash,
    hashed,
    run_ingest,
    refused,
    q.ingest_quiet (env.during_hash (begin s)),
    q.hash_quiet (begin s),
  )

  -- How a run ends that was not asked to process.
  abbrev manual_end : DocumentRecord → List Call → UploadState → Uploaded
  manual_end r calls u = record {
    form = finish (after_content false u);
    calls = calls;
    cached = some r;
  }

  run_process_manual :
      (r : DocumentRecord) (calls : List Call) (u : UploadState)
      → run_process encode default_tenant_id env false r calls u ≡ manual_end r calls u
  unfolding run_process
  run_process_manual r calls u = refl

  run_hash-picking :
      (s : UploadState) (f g : File) (r : DocumentRecord) (h : String)
      → s.auto_process ≡ false
      → env.hash f ≡ got h
      → env.ingest_reply (ingest_payload_of encode default_tenant_id s f h) ≡ got r
      → env.content_reply r.id f ≡ got tt
      → ((t : UploadState) → env.during_content t ≡ pick_file (some g) t)
      → run_hash encode default_tenant_id env s f ≡ record {
        form = picked g r (env.during_ingest (env.during_hash (begin s)));
        calls =
            ingest_call (ingest_payload_of encode default_tenant_id s f h)
            ∷ content_call r.id f
            ∷ [];
        cached = some r;
      }
  unfolding run_hash run_ingest run_content picked
  run_hash-picking s f g r h manual hashed made sent picks =
      rw (run_hash, hashed, run_ingest, made, run_content, sent)
        (let t = env.during_ingest (env.during_hash (begin s)) in
          let calls =
            ingest_call (ingest_payload_of encode default_tenant_id s f h)
            ∷ content_call r.id f
            ∷ [] in
          ap
            (λ (auto : Bool).
              run_process encode default_tenant_id env auto r calls
                (env.during_content (after_ingest r t)))
            manual
          ∙ (run_process_manual r calls (env.during_content (after_ingest r t))
              ∙ ap (λ (u : UploadState). manual_end r calls u) (picks (after_ingest r t))))

  -- The form does not take back the success of an earlier run: if the content step is done and a
  -- record is there when a run starts, and this run's first request is refused, then, the user
  -- leaving the form alone, the error and "Document uploaded successfully" are shown together.
  run_upload_both_banners :
      (q : IsQuiet env) (s : UploadState) (f : File) (r : DocumentRecord) (h message : String)
      → s.file ≡ some f
      → s.steps.content ≡ done
      → s.ingested ≡ some r
      → env.hash f ≡ got h
      → env.ingest_reply (ingest_payload_of encode default_tenant_id s f h) ≡ api_failed message
      → is_empty message ≡ false
      → let v = view_upload (run_upload encode default_tenant_id env s).form in
        (v.error_banner ≡ some message) × (v.success_banner ≡ some (r.filename, r.id))
  run_upload_both_banners q s f r h message chosen content made hashed refused full =
      let p = ingest_payload_of encode default_tenant_id s f h in
      let ended : run_upload encode default_tenant_id env s
          ≡ record { form = fail message (begin s); calls = ingest_call p ∷ []; cached = none } =
        run_upload-chosen_file encode default_tenant_id env s f chosen
        ∙ run_hash-refusal q s f h message hashed refused in
      rw ended (banners s r message content made full)

  -- The form does not stop a file from being dropped while a run is awaited: if the user picks
  -- another file during the second request and nothing else, and all calls succeed, the form shows
  -- that file, and its content step as done, though the only file sent was the first.
  run_upload_wrong_file :
      (s : UploadState) (f g : File) (r : DocumentRecord) (h : String)
      → s.file ≡ some f
      → s.auto_process ≡ false
      → env.hash f ≡ got h
      → env.ingest_reply (ingest_payload_of encode default_tenant_id s f h) ≡ got r
      → env.content_reply r.id f ≡ got tt
      → ((t : UploadState) → env.during_content t ≡ pick_file (some g) t)
      → let u = run_upload encode default_tenant_id env s in
        (u.form.file ≡ some g)
        × (u.form.steps.content ≡ done)
        × (u.calls
            ≡ ingest_call (ingest_payload_of encode default_tenant_id s f h)
              ∷ content_call r.id f
              ∷ [])
  run_upload_wrong_file s f g r h chosen manual hashed made sent picks =
      let ended =
        run_upload-chosen_file encode default_tenant_id env s f chosen
        ∙ run_hash-picking s f g r h manual hashed made sent picks in
      let (shown, marked) = picked_shows g r (env.during_ingest (env.during_hash (begin s))) in
      rw ended (shown, marked, refl)
