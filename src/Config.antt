-- ===== src/Config.antt =====
-- frontend/lib/config.ts: the values read from the environment, with their fallbacks.
use go_analyze.Prelude.{String, Option, none, some, truthy_or, ◌<+>◌}

-- `process.env`.
abbrev pub Env : Type 0
Env = String → Option String

-- `value && value.length > 0 ? value : fallback`.
unfoldable pub read_env : Env → String → String → String
read_env env name fallback = truthy_or (env name) fallback

pub record Config : Type 0 where
  pub api_base_url : String
  pub keycloak_issuer : String
  pub keycloak_client_id : String
  pub default_tenant_id : String
  pub api_timeout_ms : String  -- the text that is handed to `Number`
  pub app_name : String
  pub app_tagline : String

unfoldable pub config : Env → Config
unfolding read_env
config env = record {
  api_base_url = read_env env "NEXT_PUBLIC_GOV_API_URL" "http://localhost:8080";
  keycloak_issuer =
      read_env env "NEXT_PUBLIC_KEYCLOAK_ISSUER" "http://localhost:8081/realms/goanalyze";
  keycloak_client_id = read_env env "NEXT_PUBLIC_KEYCLOAK_CLIENT_ID" "goanalyze-frontend";
  default_tenant_id = read_env env "NEXT_PUBLIC_DEFAULT_TENANT_ID" "default";
  api_timeout_ms = read_env env "NEXT_PUBLIC_API_TIMEOUT_MS" "30000";
  app_name = "GoAnalyze";
  app_tagline = "Government Document Intelligence";
}

-- `none` is the server, where there is no window.
unfoldable pub oidc_redirect_uri : Option String → String
oidc_redirect_uri none = ""
oidc_redirect_uri (some origin) = origin <+> "/login/callback"
