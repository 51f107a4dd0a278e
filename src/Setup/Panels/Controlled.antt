-- ===== src/Setup/Panels/Controlled.antt =====
-- frontend/app/setup/page.tsx: an input shows what was entered there, and nothing else changes.
use go_analyze.Setup.Steps.{steps, StepId}
use go_analyze.Prelude.{
  ℕ, String, ◌≡◌, refl, Bool, true, false, not, ◌&&◌, List, [], ◌∷◌, ◌++◌, map, nat_eq,
  if◌then◌else◌, any,
}
use go_analyze.Types.{IdentityProvider, keycloak, azure_ad, microsoft_entra_id}
use go_analyze.Setup.{update, WizardState}
use go_analyze.Setup.Panels.{
  InputOf, value_of, change, panel_of, FieldId, f_postgresql_url, f_minio_endpoint,
  f_minio_access_key, f_object_storage_bucket, f_opensearch_url, f_redis_url, f_identity_provider,
  f_keycloak_issuer, f_azure_ad_tenant_id, f_azure_ad_client_id, f_entra_id_tenant_id, f_ocr_engine,
  f_ai_provider, f_ai_provider_endpoint, f_email_notifications_enabled, f_email_smtp_host,
  f_email_from_address, PanelField,
}

-- What an input shows, whatever its type.
pub data Shown : Type 0 where
  shown_text : String → Shown
  shown_provider : IdentityProvider → Shown
  shown_tick : Bool → Shown

abbrev pub shown_as : (f : FieldId) → InputOf f → Shown
shown_as f_identity_provider v = shown_provider v
shown_as f_email_notifications_enabled v = shown_tick v
shown_as f_postgresql_url v = shown_text v
shown_as f_minio_endpoint v = shown_text v
shown_as f_minio_access_key v = shown_text v
shown_as f_object_storage_bucket v = shown_text v
shown_as f_opensearch_url v = shown_text v
shown_as f_redis_url v = shown_text v
shown_as f_keycloak_issuer v = shown_text v
shown_as f_azure_ad_tenant_id v = shown_text v
shown_as f_azure_ad_client_id v = shown_text v
shown_as f_entra_id_tenant_id v = shown_text v
shown_as f_ocr_engine v = shown_text v
shown_as f_ai_provider v = shown_text v
shown_as f_ai_provider_endpoint v = shown_text v
shown_as f_email_smtp_host v = shown_text v
shown_as f_email_from_address v = shown_text v

abbrev pub place : FieldId → ℕ
place f_postgresql_url = 0
place f_minio_endpoint = 1
place f_minio_access_key = 2
place f_object_storage_bucket = 3
place f_opensearch_url = 4
place f_redis_url = 5
place f_identity_provider = 6
place f_keycloak_issuer = 7
place f_azure_ad_tenant_id = 8
place f_azure_ad_client_id = 9
place f_entra_id_tenant_id = 10
place f_ocr_engine = 11
place f_ai_provider = 12
place f_ai_provider_endpoint = 13
place f_email_notifications_enabled = 14
place f_email_smtp_host = 15
place f_email_from_address = 16

abbrev pub all_fields : List FieldId
all_fields =
    f_postgresql_url ∷ f_minio_endpoint ∷ f_minio_access_key ∷ f_object_storage_bucket
    ∷ f_opensearch_url ∷ f_redis_url ∷ f_identity_provider ∷ f_keycloak_issuer
    ∷ f_azure_ad_tenant_id ∷ f_azure_ad_client_id ∷ f_entra_id_tenant_id ∷ f_ocr_engine
    ∷ f_ai_provider ∷ f_ai_provider_endpoint ∷ f_email_notifications_enabled ∷ f_email_smtp_host
    ∷ f_email_from_address ∷ []

-- What all inputs show.
abbrev pub form : WizardState → List (FieldId × Shown)
form s = map (λ f. (f, shown_as f (value_of f s))) all_fields

-- The same with another entry for one input.
abbrev pub replaced : FieldId → Shown → List (FieldId × Shown) → List (FieldId × Shown)
replaced f v [] = []
replaced f v ((g, w) ∷ rows) =
    let rest = replaced f v rows in (if nat_eq (place f) (place g) then (g, v) else (g, w)) ∷ rest

-- The places of the inputs that the panels of a list of steps offer.
abbrev pub offered : List (StepId × String) → WizardState → List ℕ
offered [] s = []
offered ((id, label) ∷ more) s =
    map (λ (p : PanelField). place p.id) (panel_of id s) ++ offered more s

abbrev pub distinct : List ℕ → Bool
distinct [] = true
distinct (n ∷ ns) = not (any (nat_eq n) ns) && distinct ns

steps-distinct :
    (provider : IdentityProvider) (enabled : Bool) (s : WizardState)
    → distinct (
        offered steps
          (record s { identity_provider = provider; email_notifications_enabled = enabled }))
      ≡ true
unfolding steps panel_of
steps-distinct keycloak false s = refl
steps-distinct keycloak true s = refl
steps-distinct azure_ad false s = refl
steps-distinct azure_ad true s = refl
steps-distinct microsoft_entra_id false s = refl
steps-distinct microsoft_entra_id true s = refl

form_changed :
    (f : FieldId) (v : InputOf f) (s : WizardState)
    → form (update (change f v) s) ≡ replaced f (shown_as f v) (form s)
unfolding value_of change update
form_changed f_postgresql_url v s = refl
form_changed f_minio_endpoint v s = refl
form_changed f_minio_access_key v s = refl
form_changed f_object_storage_bucket v s = refl
form_changed f_opensearch_url v s = refl
form_changed f_redis_url v s = refl
form_changed f_identity_provider v s = refl
form_changed f_keycloak_issuer v s = refl
form_changed f_azure_ad_tenant_id v s = refl
form_changed f_azure_ad_client_id v s = refl
form_changed f_entra_id_tenant_id v s = refl
form_changed f_ocr_engine v s = refl
form_changed f_ai_provider v s = refl
form_changed f_ai_provider_endpoint v s = refl
form_changed f_email_notifications_enabled v s = refl
form_changed f_email_smtp_host v s = refl
form_changed f_email_from_address v s = refl

-- The panels of the nine steps offer no input twice, whatever the state. An input that is edited shows
-- what was entered, and no other of the seventeen inputs changes.
pub form-change :
    (f : FieldId) (v : InputOf f) (s : WizardState)
    → (distinct (offered steps s) ≡ true)
      × (form (update (change f v) s) ≡ replaced f (shown_as f v) (form s))
form-change f v s =
    (steps-distinct s.identity_provider s.email_notifications_enabled s, form_changed f v s)
