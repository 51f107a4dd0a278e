-- ===== src/Upload/Ends.antt =====
-- frontend/components/documents/DocumentUpload.tsx: how the form stands after a run.
use go_analyze.Platform.{File}
use go_analyze.Prelude.{
  String, ◌≡◌, refl, ap, inl, inr, Bool, true, false, none, some, List, [], ◌∷◌, ◌++◌,
  if◌then◌else◌, is_some,
}
use go_analyze.Types.{DocumentRecord}
use go_analyze.Upload.{
  initial_steps, begin, after_ingest, after_content, after_process, finish, failed_step, fail,
  pending, active, done, error, StepState, UploadState,
}
use go_analyze.Upload.Run.{
  ingest_payload_of, run_process, run_content, run_ingest, run_hash, run_upload,
  run_upload-chosen_file, Reply-cases, Call, ingest_call, content_call, Surroundings,
}

-- The user leaves the form alone while a run is awaited.
pub record IsQuiet (env : Surroundings) : Type 0 where
  pub hash_quiet : (s : UploadState) → env.during_hash s ≡ s
  pub ingest_quiet : (s : UploadState) → env.during_ingest s ≡ s
  pub content_quiet : (s : UploadState) → env.during_content s ≡ s
  pub process_quiet : (s : UploadState) → env.during_process s ≡ s

-- The four ways in which the steps of a first run can stand at its end.
pub data Ended (auto : Bool) (u : UploadState) : Type 0 where
  all_done :
      u.error_text ≡ none
      → u.steps.ingest ≡ done
      → u.steps.content ≡ done
      → u.steps.process ≡ (if auto then done else pending)
      → Ended auto u
  ingest_failed :
      is_some u.error_text ≡ true
      → u.steps ≡ record { ingest = error; content = pending; process = pending }
      → u.ingested ≡ none
      → Ended auto u
  content_failed :
      is_some u.error_text ≡ true
      → u.steps ≡ record { ingest = done; content = error; process = pending }
      → Ended auto u
  process_failed :
      auto ≡ true
      → is_some u.error_text ≡ true
      → u.steps ≡ record { ingest = done; content = done; process = error }
      → Ended auto u

-- What `fail` does to the steps.
abbrev fail_steps : StepState → StepState
fail_steps t = record {
  ingest = failed_step t.ingest;
  content = failed_step t.content;
  process = failed_step t.process;
}

module _ (encode : String → String) (default_tenant_id : String) (env : Surroundings)
    (q : IsQuiet env) where
  run_process-Ended :
      (auto : Bool) (r : DocumentRecord) (calls : List Call) (s : UploadState)
      → s.error_text ≡ none
      → s.steps.ingest ≡ done
      → Ended auto (run_process encode default_tenant_id env auto r calls s).form
  unfolding run_process after_content after_process fail finish
  run_process-Ended false r calls s e i = all_done e i refl refl
  run_process-Ended true r calls s e i = elim (Reply-cases (env.process_reply r.id)) [
    | inl (u, p) ↦
        rw (run_process, p, q.process_quiet (after_content true s)) (all_done e i refl refl)
    | inr (inl (m, p)) ↦
        rw (run_process, p, q.process_quiet (after_content true s))
          (process_failed refl refl (rw i))
    | inr (inr p) ↦
        rw (run_process, p, q.process_quiet (after_content true s))
          (process_failed refl refl (rw i))
  ]

  run_content-Ended :
      (auto : Bool) (f : File) (r : DocumentRecord) (calls : List Call) (s : UploadState)
      → s.error_text ≡ none
      → s.steps.process ≡ pending
      → Ended auto (run_content encode default_tenant_id env auto f r calls s).form
  unfolding run_content after_ingest fail
  run_content-Ended auto f r calls s e p = elim (Reply-cases (env.content_reply r.id f)) [
    | inl (u, c) ↦
        rw (run_content, c, q.content_quiet (after_ingest r s))
          (run_process-Ended auto r (calls ++ content_call r.id f ∷ []) (after_ingest r s) e refl)
    | inr (inl (m, c)) ↦
        rw (run_content, c, q.content_quiet (after_ingest r s)) (content_failed refl (rw p))
    | inr (inr c) ↦
        rw (run_content, c, q.content_quiet (after_ingest r s)) (content_failed refl (rw p))
  ]

  run_ingest-Ended :
      (c : UploadState) (f : File) (h : String) (s : UploadState)
      → s.error_text ≡ none
      → s.ingested ≡ none
      → s.steps ≡ record { ingest = active; content = pending; process = pending }
      → Ended c.auto_process (run_ingest encode default_tenant_id env c f h s).form
  unfolding run_ingest fail
  run_ingest-Ended c f h s e i st =
      let payload = ingest_payload_of encode default_tenant_id c f h in
      let failed = ap (λ (t : StepState). fail_steps t) st in
      elim (Reply-cases (env.ingest_reply payload)) [
        | inl (r, g) ↦
            rw (run_ingest, g, q.ingest_quiet s)
              (run_content-Ended c.auto_process f r (ingest_call payload ∷ []) s e
                (ap StepState.process st))
        | inr (inl (m, g)) ↦ rw (run_ingest, g, q.ingest_quiet s) (ingest_failed refl failed i)
        | inr (inr g) ↦ rw (run_ingest, g, q.ingest_quiet s) (ingest_failed refl failed i)
      ]

  -- For a form that was just filled in, with no step taken and no record, and that the user leaves
  -- alone meanwhile: a run ends with every step done and no error (the processing only if it was asked
  -- for), or with an error text and exactly one failed step, those before it done and those after it
  -- pending. No step is left active.
  pub run_upload-Ended :
      (s : UploadState) (f : File)
      → s.file ≡ some f
      → s.steps ≡ initial_steps
      → s.ingested ≡ none
      → Ended s.auto_process (run_upload encode default_tenant_id env s).form
  unfolding begin fail run_hash
  run_upload-Ended s f chosen st i =
      let started : (begin s).steps
          ≡ record { ingest = active; content = pending; process = pending } =
        ap (λ (t : StepState). record t { ingest = active }) st in
      let failed = ap (λ (t : StepState). fail_steps t) started in
      rw (run_upload-chosen_file encode default_tenant_id env s f chosen)
        (elim (Reply-cases (env.hash f)) [
          | inl (h, g) ↦
              rw (run_hash, g, q.hash_quiet (begin s))
                (run_ingest-Ended s f h (begin s) refl i started)
          | inr (inl (m, g)) ↦
              rw (run_hash, g, q.hash_quiet (begin s)) (ingest_failed refl failed i)
          | inr (inr g) ↦ rw (run_hash, g, q.hash_quiet (begin s)) (ingest_failed refl failed i)
        ])
