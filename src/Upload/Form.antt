-- ===== src/Upload/Form.antt =====
-- frontend/components/documents/DocumentUpload.tsx: what the user does to the form, and which file it
-- shows after a run.
use go_analyze.Prelude.{
  String, ◌≡◌, refl, sym, ◌∙◌, subst, inl, inr, Bool, true, false, Option, none, some, List, [],
  ◌∷◌, ◌++◌, if◌then◌else◌, All,
}
use go_analyze.Platform.{File}
use go_analyze.Types.{ClassificationLevel, DocumentRecord}
use go_analyze.Upload.{
  reset, pick_file, begin, after_ingest, after_content, after_process, finish, fail, UploadState,
}
use go_analyze.Upload.Run.{
  ingest_payload_of, run_process, run_content, run_ingest, run_hash, run_upload,
  run_upload-chosen_file, Reply-cases, Call, ingest_call, content_call, Surroundings,
}

-- The handlers of the form. A drop or a choice may bring no file; the button "Remove" is disabled
-- while a run is under way.
pub data FormEvent : Type 0 where
  drag_over drag_leave : FormEvent
  drop choose : Option File → FormEvent
  click_remove : FormEvent
  edit_tenant_id edit_case_id edit_description : String → FormEvent
  select_classification : ClassificationLevel → FormEvent
  check_auto_process : Bool → FormEvent

unfoldable pub form_event : FormEvent → UploadState → UploadState
form_event drag_over s = record s { dragging = true }
form_event drag_leave s = record s { dragging = false }
form_event (drop f) s = pick_file f (record s { dragging = false })
form_event (choose f) s = pick_file f s
form_event click_remove s = if s.busy then s else reset s
form_event (edit_tenant_id v) s = record s { tenant_id = v }
form_event (edit_case_id v) s = record s { case_id = v }
form_event (edit_description v) s = record s { description = v }
form_event (select_classification v) s = record s { classification = v }
form_event (check_auto_process v) s = record s { auto_process = v }

abbrev pub form_events : List FormEvent → UploadState → UploadState
form_events [] s = s
form_events (e ∷ es) s = form_events es (form_event e s)

-- A handler that brings no file.
abbrev pub BringsNone : FormEvent → Type 0
BringsNone (drop (some f)) = ⊥
BringsNone (choose (some f)) = ⊥
BringsNone _ = Unit {0}

-- What a wait keeps of the form: the file and the steps, and that a run is under way.
pub record KeepsRun (meanwhile : UploadState → UploadState) : Type 0 where
  pub keeps_file : (s : UploadState) → s.busy ≡ true → (meanwhile s).file ≡ s.file
  pub keeps_steps : (s : UploadState) → s.busy ≡ true → (meanwhile s).steps ≡ s.steps
  pub keeps_busy : (s : UploadState) → s.busy ≡ true → (meanwhile s).busy ≡ true

-- What one handler keeps.
record IsKept (s t : UploadState) : Type 0 where
  file_kept : t.file ≡ s.file
  steps_kept : t.steps ≡ s.steps
  busy_kept : t.busy ≡ true

same-IsKept : (s : UploadState) → s.busy ≡ true → IsKept s s
same-IsKept s b = record { file_kept = refl; steps_kept = refl; busy_kept = b }

form_event-IsKept :
    (e : FormEvent) (s : UploadState) → BringsNone e → s.busy ≡ true → IsKept s (form_event e s)
unfolding form_event pick_file
form_event-IsKept (drop none) s h b = record { file_kept = refl; steps_kept = refl; busy_kept = b }
form_event-IsKept (choose none) s h b = same-IsKept s b
form_event-IsKept (drop (some f)) s h b = absurd h
form_event-IsKept (choose (some f)) s h b = absurd h
form_event-IsKept click_remove s h b =
    subst (λ c. IsKept s (if c then s else reset s)) (sym b) (same-IsKept s b)
form_event-IsKept _ s h b = record { file_kept = refl; steps_kept = refl; busy_kept = b }

form_events-IsKept :
    (es : List FormEvent) (s : UploadState)
    → All BringsNone es
    → s.busy ≡ true
    → IsKept s (form_events es s)
form_events-IsKept [] s h b = same-IsKept s b
form_events-IsKept (e ∷ es) s (p, h) b =
    let k = form_event-IsKept e s p b in
    let l = form_events-IsKept es (form_event e s) h k.busy_kept in
    record {
      file_kept = l.file_kept ∙ k.file_kept;
      steps_kept = l.steps_kept ∙ k.steps_kept;
      busy_kept = l.busy_kept;
    }

-- Whatever the user does to the form during a run except to drop or choose a file, the file, the
-- steps and the mark that a run is under way stay as they are.
pub form_events-KeepsRun : (es : List FormEvent) → All BringsNone es → KeepsRun (form_events es)
form_events-KeepsRun es h = record {
  keeps_file = λ s b. (form_events-IsKept es s h b).file_kept;
  keeps_steps = λ s b. (form_events-IsKept es s h b).steps_kept;
  keeps_busy = λ s b. (form_events-IsKept es s h b).busy_kept;
}

-- The user keeps to that in each of the four waits.
pub record IsCalm (env : Surroundings) : Type 0 where
  pub calm_hash : KeepsRun env.during_hash
  pub calm_ingest : KeepsRun env.during_ingest
  pub calm_content : KeepsRun env.during_content
  pub calm_process : KeepsRun env.during_process

module _ (encode : String → String) (default_tenant_id : String) (env : Surroundings)
    (q : IsCalm env) where
  run_process-file :
      (auto : Bool) (r : DocumentRecord) (calls : List Call) (s : UploadState)
      → s.busy ≡ true
      → (run_process encode default_tenant_id env auto r calls s).form.file ≡ s.file
  unfolding run_process finish fail after_process after_content
  run_process-file false r calls s b = refl
  run_process-file true r calls s b =
      let k = q.calm_process.keeps_file (after_content true s) b in
      elim (Reply-cases (env.process_reply r.id)) [
        | inl (u, e) ↦ rw (run_process, e) k
        | inr (inl (m, e)) ↦ rw (run_process, e) k
        | inr (inr e) ↦ rw (run_process, e) k
      ]

  run_content-file :
      (auto : Bool) (f : File) (r : DocumentRecord) (calls : List Call) (s : UploadState)
      → s.busy ≡ true
      → (run_content encode default_tenant_id env auto f r calls s).form.file ≡ s.file
  unfolding run_content fail after_ingest
  run_content-file auto f r calls s b =
      let k = q.calm_content.keeps_file (after_ingest r s) b in
      let b' = q.calm_content.keeps_busy (after_ingest r s) b in
      elim (Reply-cases (env.content_reply r.id f)) [
        | inl (u, e) ↦
            rw (run_content, e)
              (run_process-file auto r (calls ++ content_call r.id f ∷ [])
                  (env.during_content (after_ingest r s)) b'
                ∙ k)
        | inr (inl (m, e)) ↦ rw (run_content, e) k
        | inr (inr e) ↦ rw (run_content, e) k
      ]

  run_ingest-file :
      (c : UploadState) (f : File) (h : String) (s : UploadState)
      → s.busy ≡ true
      → (run_ingest encode default_tenant_id env c f h s).form.file ≡ s.file
  unfolding run_ingest fail
  run_ingest-file c f h s b =
      let p = ingest_payload_of encode default_tenant_id c f h in
      let k = q.calm_ingest.keeps_file s b in
      elim (Reply-cases (env.ingest_reply p)) [
        | inl (r, e) ↦
            rw (run_ingest, e)
              (run_content-file c.auto_process f r (ingest_call p ∷ []) (env.during_ingest s)
                  (q.calm_ingest.keeps_busy s b)
                ∙ k)
        | inr (inl (m, e)) ↦ rw (run_ingest, e) k
        | inr (inr e) ↦ rw (run_ingest, e) k
      ]

  -- Where the user, during the four waits of a run, keeps the file and the steps as they are, as any
  -- handlers do that bring no file: the form shows at the end the file that was chosen at the click.
  run_upload-file :
      (s : UploadState) (f : File)
      → s.file ≡ some f
      → (run_upload encode default_tenant_id env s).form.file ≡ some f
  unfolding run_hash begin fail
  run_upload-file s f chosen =
      let k = q.calm_hash.keeps_file (begin s) refl in
      rw (run_upload-chosen_file encode default_tenant_id env s f chosen) (
        elim (Reply-cases (env.hash f)) [
          | inl (h, e) ↦
              rw (run_hash, e)
                (run_ingest-file s f h (env.during_hash (begin s))
                    (q.calm_hash.keeps_busy (begin s) refl)
                  ∙ k)
          | inr (inl (m, e)) ↦ rw (run_hash, e) k
          | inr (inr e) ↦ rw (run_hash, e) k
        ]
        ∙ chosen)
