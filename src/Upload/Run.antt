-- ===== src/Upload/Run.antt =====
-- frontend/components/documents/DocumentUpload.tsx: `runUpload`.
use go_analyze.Prelude.{
  String, ◌≡◌, refl, ap, ◌⊎◌, inl, inr, Bool, true, false, Option, none, some, List, [], ◌∷◌, ◌++◌,
  if◌then◌else◌, is_empty, text_or, or_null, ◌<+>◌,
}
use go_analyze.Platform.{File}
use go_analyze.Types.{DocumentIngestRequest, DocumentRecord}
use go_analyze.Upload.{begin, after_ingest, after_content, after_process, finish, fail, UploadState}

-- How an awaited call ends: with a value, with an `ApiError` and its message, or with another
-- exception.
pub data Reply (A : Type 0) : Type 0 where
  got : A → Reply A
  api_failed : String → Reply A
  other_failed : Reply A

pub data Call : Type 0 where
  ingest_call : DocumentIngestRequest → Call
  content_call : String → File → Call
  process_call : String → Call

-- What the upload meets: the hash of the file, the three answers, and what the user does to the form
-- while each of the four is awaited.
pub record Surroundings : Type 0 where
  pub hash : File → Reply String
  pub ingest_reply : DocumentIngestRequest → Reply DocumentRecord
  pub content_reply : String → File → Reply (Unit {0})
  pub process_reply : String → Reply (Unit {0})
  pub during_hash : UploadState → UploadState
  pub during_ingest : UploadState → UploadState
  pub during_content : UploadState → UploadState
  pub during_process : UploadState → UploadState

-- The payload, from the form as it stood at the click. `encode` is `encodeURIComponent`.
unfoldable pub ingest_payload_of :
    (String → String) → String → UploadState → File → String → DocumentIngestRequest
ingest_payload_of encode default_tenant_id s f sha256 =
    let tenant = text_or s.tenant_id default_tenant_id in
    record {
      tenant_id = tenant;
      case_id = or_null s.case_id;
      filename = f.name;
      content_type = text_or f.mime_type "application/octet-stream";
      classification = s.classification;
      sha256 = sha256;
      object_uri = "pending://" <+> (tenant <+> ("/" <+> (sha256 <+> ("/" <+> encode f.name))));
      metadata = if is_empty s.description then [] else ("description", s.description) ∷ [];
    }

-- What a run leaves: the form, the calls it made, and the record that it put into the cache.
pub record Uploaded : Type 0 where
  pub form : UploadState
  pub calls : List Call
  pub cached : Option DocumentRecord

module _ (encode : String → String) (default_tenant_id : String) (env : Surroundings) where
  -- The third step, on the form as the second has left it.
  unfoldable pub run_process : Bool → DocumentRecord → List Call → UploadState → Uploaded
  run_process false r calls s = record {
    form = finish (after_content false s);
    calls = calls;
    cached = some r;
  }
  run_process true r calls s =
      let s₁ = env.during_process (after_content true s) in
      let calls' = calls ++ process_call r.id ∷ [] in
      elim (env.process_reply r.id) [
        | got _ ↦ record { form = finish (after_process s₁); calls = calls'; cached = some r }
        | api_failed m ↦ record { form = fail m s₁; calls = calls'; cached = some r }
        | other_failed ↦ record {
          form = fail "Upload failed unexpectedly." s₁;
          calls = calls';
          cached = some r;
        }
      ]

  -- The second step.
  unfoldable pub run_content : Bool → File → DocumentRecord → List Call → UploadState → Uploaded
  run_content auto f r calls s =
      let s₁ = env.during_content (after_ingest r s) in
      let calls' = calls ++ content_call r.id f ∷ [] in
      elim (env.content_reply r.id f) [
        | got _ ↦ run_process auto r calls' s₁
        | api_failed m ↦ record { form = fail m s₁; calls = calls'; cached = some r }
        | other_failed ↦ record {
          form = fail "Upload failed unexpectedly." s₁;
          calls = calls';
          cached = some r;
        }
      ]

  -- The first step, from the hash on; `clicked` is the form as it stood at the click.
  unfoldable pub run_ingest : UploadState → File → String → UploadState → Uploaded
  run_ingest clicked f sha256 s =
      let payload = ingest_payload_of encode default_tenant_id clicked f sha256 in
      let s₁ = env.during_ingest s in
      let calls = ingest_call payload ∷ [] in
      elim (env.ingest_reply payload) [
        | got r ↦ run_content clicked.auto_process f r calls s₁
        | api_failed m ↦ record { form = fail m s₁; calls = calls; cached = none }
        | other_failed ↦ record {
          form = fail "Upload failed unexpectedly." s₁;
          calls = calls;
          cached = none;
        }
      ]

  -- From the click on, for the chosen file.
  unfoldable pub run_hash : UploadState → File → Uploaded
  run_hash s f =
      let s₁ = env.during_hash (begin s) in
      elim (env.hash f) [
        | got sha256 ↦ run_ingest s f sha256 s₁
        | api_failed m ↦ record { form = fail m s₁; calls = []; cached = none }
        | other_failed ↦ record {
          form = fail "Upload failed unexpectedly." s₁;
          calls = [];
          cached = none;
        }
      ]

  -- Nothing is done without a file.
  unfoldable pub run_chosen : UploadState → Option File → Uploaded
  run_chosen s none = record { form = s; calls = []; cached = none }
  run_chosen s (some f) = run_hash s f

  unfoldable pub run_upload : UploadState → Uploaded
  run_upload s = run_chosen s s.file

  pub run_upload-chosen_file :
      (s : UploadState) (f : File) → s.file ≡ some f → run_upload s ≡ run_hash s f
  unfolding run_upload run_chosen
  run_upload-chosen_file s f chosen = ap (run_chosen s) chosen

pub Reply-cases :
    {A : Type 0} (r : Reply A)
    → ((a : A) × (r ≡ got a)) ⊎ ((m : String) × (r ≡ api_failed m)) ⊎ (r ≡ other_failed)
Reply-cases (got a) = inl (a, refl)
Reply-cases (api_failed m) = inr (inl (m, refl))
Reply-cases other_failed = inr (inr refl)
