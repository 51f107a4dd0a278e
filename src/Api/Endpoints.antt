-- ===== src/Api/Endpoints.antt =====
-- frontend/lib/api.ts: the endpoints, each the path and the options that it hands to `request`.
use go_analyze.Prelude.{
  ℕ, String, false, Option, none, some, List, [], ◌∷◌, coalesce, text_or, ◌<+>◌,
}
use go_analyze.Platform.{File}
use go_analyze.Types.{
  DocumentIngestRequest, SearchParams, EvidenceCitation, EnvironmentalReviewRequest,
  SetupConfiguration,
}
use go_analyze.Api.Url.{build_url, QueryValue, text, number, undefined, Url}
use go_analyze.Api.Request.{get, post, put, RequestOptions}

-- What is sent as JSON.
pub data Payload : Type 0 where
  ingest_payload : DocumentIngestRequest → Payload
  citations_payload : List EvidenceCitation → Payload
  review_payload : EnvironmentalReviewRequest → Payload
  setup_payload : SetupConfiguration → Payload

pub record Endpoint : Type 0 where
  pub path : String
  pub options : RequestOptions Payload File

-- `options = {}`.
abbrev pub no_options : RequestOptions Payload File
no_options = record {
  method = none;
  query = [];
  json = none;
  body = none;
  headers = [];
  authenticated = none;
  has_signal = false;
}

abbrev open_get : String → Endpoint
open_get path = record { path = path; options = record no_options { authenticated = some false } }

unfoldable pub health : Endpoint
health = open_get "/health"

unfoldable pub ready : Endpoint
ready = open_get "/ready"

unfoldable pub metrics : Endpoint
metrics = open_get "/metrics"

unfoldable pub ingest : DocumentIngestRequest → Endpoint
ingest payload = record {
  path = "/v1/documents";
  options = record no_options { method = some post; json = some (ingest_payload payload) };
}

unfoldable pub upload_content : String → File → Endpoint
upload_content document_id file = record {
  path = "/v1/documents/" <+> (document_id <+> "/content");
  options = record no_options {
    method = some put;
    body = some file;
    headers = ("Content-Type", text_or file.mime_type "application/octet-stream") ∷ [];
  };
}

unfoldable pub process : String → Endpoint
process document_id = record {
  path = "/v1/documents/" <+> (document_id <+> "/process");
  options = record no_options { method = some post };
}

-- A field of the query that may be `undefined` or `null`.
abbrev pub optional_text : Option String → QueryValue
optional_text none = undefined
optional_text (some s) = text s

abbrev pub optional_number : Option ℕ → QueryValue
optional_number none = undefined
optional_number (some n) = number n

unfoldable pub search : SearchParams → Endpoint
search params = record {
  path = "/v1/documents/search";
  options = record no_options {
    query =
        ("q", optional_text params.q)
        ∷ ("page", optional_number params.page)
        ∷ ("page_size", optional_number params.page_size)
        ∷ ("classification", optional_text params.classification)
        ∷ ("content_type", optional_text params.content_type)
        ∷ [];
  };
}

-- `downloadUrl`.
unfoldable pub download_url : (String → String → String) → (ℕ → String) → String → String → Url
unfolding build_url
download_url resolve print base document_id =
    build_url resolve print base ("/v1/documents/" <+> (document_id <+> "/download")) []

unfoldable pub download : String → Endpoint
download document_id = record {
  path = "/v1/documents/" <+> (document_id <+> "/download");
  options = record no_options { method = some get };
}

unfoldable pub rag_answer : String → List EvidenceCitation → Endpoint
rag_answer question citations = record {
  path = "/v1/rag/answer";
  options = record no_options {
    method = some post;
    query = ("question", text question) ∷ [];
    json = some (citations_payload citations);
  };
}

unfoldable pub review : EnvironmentalReviewRequest → Endpoint
review payload = record {
  path = "/v1/environmental-reviews";
  options = record no_options { method = some post; json = some (review_payload payload) };
}

unfoldable pub assign : String → Option String → Endpoint
assign case_id skill = record {
  path = "/v1/cases/" <+> (case_id <+> "/assign");
  options = record no_options { method = some post; query = ("skill", optional_text skill) ∷ [] };
}

-- The defaults of `list` are `coalesce page 1` and `coalesce page_size 20`.
unfoldable pub list_audit : Option ℕ → Option ℕ → Endpoint
list_audit page page_size = record {
  path = "/v1/audit";
  options = record no_options {
    query = ("page", number (coalesce page 1)) ∷ ("page_size", number (coalesce page_size 20)) ∷ [];
  };
}

unfoldable pub submit_setup : SetupConfiguration → Endpoint
submit_setup payload = record {
  path = "/v1/setup";
  options = record no_options {
    method = some post;
    json = some (setup_payload payload);
    authenticated = some false;
  };
}
