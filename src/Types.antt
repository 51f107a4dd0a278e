-- ===== src/Types.antt =====
-- frontend/lib/types.ts: the data that the API exchanges. A field that may be `undefined` or `null`
-- is an `Option`; free-form JSON is a parameter type.
use go_analyze.Prelude.{ℕ, String, ◌⊎◌, Bool, Option, List, [], ◌∷◌}

pub data ClassificationLevel : Type 0 where
  public internal confidential protected_b : ClassificationLevel

abbrev pub classification_levels : List ClassificationLevel
classification_levels = public ∷ internal ∷ confidential ∷ protected_b ∷ []

-- The text that stands for a level in the contract.
abbrev pub level_text : ClassificationLevel → String
level_text public = "public"
level_text internal = "internal"
level_text confidential = "confidential"
level_text protected_b = "protected_b"

pub data IdentityProvider : Type 0 where
  keycloak azure_ad microsoft_entra_id : IdentityProvider

abbrev pub canonical_pipeline_stages : List String
canonical_pipeline_stages =
    "ocr" ∷ "classification" ∷ "metadata_extraction" ∷ "entity_extraction" ∷ "compliance_analysis"
    ∷ "risk_scoring" ∷ "vector_indexing" ∷ "workflow_routing" ∷ "audit" ∷ []

pub record DocumentIngestRequest : Type 0 where
  pub tenant_id : String
  pub case_id : Option String
  pub filename : String
  pub content_type : String
  pub classification : ClassificationLevel
  pub sha256 : String
  pub object_uri : String
  pub metadata : List (String × String)

pub record DocumentRecord : Type 0 where
  pub tenant_id : String
  pub case_id : Option (Option String)  -- absent, `null`, or a text
  pub filename : String
  pub content_type : String
  pub classification : ClassificationLevel
  pub sha256 : String
  pub object_uri : String
  pub metadata : List (String × String)
  pub id : String
  pub version : ℕ
  pub lineage_id : String
  pub created_at : String

pub record StageResult (Json : Type 0) : Type 0 where
  pub stage : String
  pub status : String
  pub output : List (String × Json)
  pub duration_ms : ℕ

pub record DocumentProcessingResult (Json Score : Type 0) : Type 0 where
  pub document_id : String
  pub stages : List (StageResult Json)
  pub classification_label : Option String
  pub extracted_entities : List String
  pub risk_score : Option Score
  pub workflow_queue : Option String
  pub completed : Bool

pub record SearchHit : Type 0 where
  pub document_id : String
  pub filename : String
  pub content_type : String
  pub classification : ClassificationLevel
  pub score : ℕ  -- an opaque rank: the page only prints it
  pub highlight : Option (Option String)  -- absent, `null`, or a text
  pub created_at : String

pub record SearchResponse : Type 0 where
  pub query : String
  pub total : ℕ
  pub page : ℕ
  pub page_size : ℕ
  pub backend : String
  pub results : List SearchHit

pub record SearchParams : Type 0 where
  pub q : Option String
  pub page : Option ℕ
  pub page_size : Option ℕ
  pub classification : Option String
  pub content_type : Option String

pub record EvidenceCitation : Type 0 where
  pub document_id : String
  pub version : ℕ
  pub chunk_id : String
  pub page : Option ℕ
  pub start_offset : Option ℕ
  pub end_offset : Option ℕ
  pub sha256 : String
  pub excerpt : String

pub record EnvironmentalReviewRequest : Type 0 where
  pub tenant_id : String
  pub case_id : String
  pub project_type : String
  pub location : String
  pub applicant : String
  pub documents : List String

-- `RagAnswerResponse`: an open object, of which two fields are known.
pub record RagAnswerResponse (Json : Type 0) : Type 0 where
  pub answer : Option String
  pub citations : Option (List EvidenceCitation)
  pub others : List (String × Json)

-- The answers that are open objects: `EnvironmentalReviewResponse`, `CaseAssignResponse` and
-- `ReadyResponse`; `HealthResponse` has texts, and `MetricsResponse` may be one text.
abbrev pub OpenObject : Type 0 → Type 0
OpenObject Json = List (String × Json)

abbrev pub HealthResponse : Type 0
HealthResponse = OpenObject String

abbrev pub MetricsResponse : Type 0 → Type 0
MetricsResponse Json = OpenObject Json ⊎ String

pub record AuditEvent (Json : Type 0) : Type 0 where
  pub id : String
  pub tenant_id : String
  pub actor : String
  pub action : String
  pub resource_type : String
  pub resource_id : String
  pub purpose : String
  pub trace_id : String
  pub timestamp : String
  pub details : List (String × Json)
  pub previous_hash : Option String
  pub event_hash : Option String

pub record AuditEventListResponse (Json : Type 0) : Type 0 where
  pub total : ℕ
  pub page : ℕ
  pub page_size : ℕ
  pub total_pages : ℕ
  pub items : List (AuditEvent Json)

pub record SetupConfiguration : Type 0 where
  pub postgresql_url : String
  pub minio_endpoint : String
  pub minio_access_key : Option String
  pub opensearch_url : String
  pub redis_url : String
  pub identity_provider : IdentityProvider
  pub keycloak_issuer : Option String
  pub azure_ad_tenant_id : Option String
  pub azure_ad_client_id : Option String
  pub microsoft_entra_id_tenant_id : Option String
  pub ocr_engine : String
  pub ai_provider : String
  pub ai_provider_endpoint : Option String
  pub object_storage_bucket : String
  pub email_notifications_enabled : Bool
  pub email_smtp_host : Option String
  pub email_from_address : Option String

pub record SetupConfigurationResult : Type 0 where
  pub accepted : Bool
  pub validated_components : List String
  pub warnings : List String

-- `ValidationError`, of which the client reads the message.
pub record ValidationError : Type 0 where
  pub loc : List (String ⊎ ℕ)
  pub msg : String
  pub kind : String  -- the field `type`

pub record HttpValidationError : Type 0 where
  pub detail : Option (List ValidationError)
