-- ===== src/Tests/Telemetry.antt =====
-- The sidecar's store with room for one item, and the supervisor's route over a small network.
use user_delegated_auth_serv.Base.{
  String, ◌≡◌, refl, ◌⊎◌, none, some, List, [], ◌∷◌, Result, ok, err, Exception,
}
use user_delegated_auth_serv.Json.{str, obj, arr, strings, Fields, end, field}
use user_delegated_auth_serv.SessionState.InternalAuth.{
  TrustedSessionContext, verify_session_context,
}
use user_delegated_auth_serv.Observability.Redaction.{Texts}
use user_delegated_auth_serv.Observability.Sidecar.{LogIngest, Level, new_store}
use user_delegated_auth_serv.Observability.Bounded.{
  Input, log, take_in, IsBounded, take_in-IsBounded,
}
use user_delegated_auth_serv.Supervisor.Models.{
  SupervisorSettings, Auth0UserSessionMetadataRequest, Auth0UserSessionMetadataResult, new_persona,
}
use user_delegated_auth_serv.Supervisor.Network.{
  Network, Sending, Auth0Request, post_form, get_user,
}
use user_delegated_auth_serv.Supervisor.Persona.{build_user_persona}
use user_delegated_auth_serv.Supervisor.Persona.Valid.{new_persona-build_user_persona}
use user_delegated_auth_serv.Supervisor.Handler.{load_auth0_user_session_metadata}
use user_delegated_auth_serv.Supervisor.Handler.Trusted.{
  Matches, IsAbout, load_auth0_user_session_metadata-IsAbout,
}
use user_delegated_auth_serv.Tests.Data.{context, digests, codec}

abbrev texts : Texts
texts = record { lower = λ s. s; redact_string = λ s. s }

abbrev entry : String → LogIngest
entry message = record {
  source_component = "supervisor";
  level = Level.info;
  message = message;
  attributes = field "access_token" (str "eyJ") end;
  trace_id = none;
  agentic_span_id = none;
  created_at = 1;
}

abbrev inputs : List Input
inputs = log (entry "first") ∷ log (entry "second") ∷ []

take_in-IsBounded_example : IsBounded texts 1 inputs (take_in texts inputs (new_store 1))
take_in-IsBounded_example = take_in-IsBounded texts 1 inputs

-- The older entry is gone, and the token is redacted.
take_in_shown : take_in texts inputs (new_store 1) ≡ record (new_store 1) {
  logs =
      (record (entry "second") { attributes = field "access_token" (str "[REDACTED]") end }) ∷ [];
}
unfolding take_in
take_in_shown = refl

new_persona-build_user_persona_example :
    new_persona (build_user_persona end end end "user-1" none ("read:vm" ∷ []) ("list_vms" ∷ []))
    ≡ ok (build_user_persona end end end "user-1" none ("read:vm" ∷ []) ("list_vms" ∷ []))
new_persona-build_user_persona_example =
    new_persona-build_user_persona end end end "user-1" none ("read:vm" ∷ []) ("list_vms" ∷ []) refl

abbrev settings : SupervisorSettings
settings = record {
  observability_sidecar_url = none;
  auth0_domain = some "tenant.auth0.com";
  auth0_audience = none;
  auth0_management_client_id = some "client";
  auth0_management_client_secret = some "secret";
  auth0_management_audience = none;
  internal_service_auth_secret = some "secret";
}

abbrev answer_of : Auth0Request → Fields
answer_of (post_form url form) = field "access_token" (str "management") end
answer_of (get_user base quoted bearer) =
    field "app_metadata"
      (obj (
        field "magnum_opus"
          (obj (
            field "allowed_scopes" (arr (strings ("read:vm" ∷ [])))
              (field "allowed_mcp_tools" (arr (strings ("list_vms" ∷ []))) end)))
          end))
      end

abbrev network : Network
network = record {
  sidecar = λ path body. none;
  auth0 =
      λ request. ok (record { status_code = 200; text = ""; json = ok (obj (answer_of request)) });
  uuid4_hex = λ event_type. "1";
  created_at = λ event_type. "now";
}

abbrev request : Auth0UserSessionMetadataRequest
request = record {
  user_id = context.user_id;
  session_id = context.session_id;
  token_ref = "token:1";
  token_scopes = context.token_scopes;
  tenant_id = context.tenant_id;
  audience = none;
  user_email = none;
  user_name = none;
}

abbrev answer : Sending Auth0UserSessionMetadataResult
answer =
    load_auth0_user_session_metadata network settings digests codec 1000 (some "bctx") (some "hmac")
      request

load_auth0_user_session_metadata-IsAbout_example :
    ((e : Exception) × (answer ≡ (err e, [])))
    ⊎ ((trusted : TrustedSessionContext) × (verify_session_context digests codec 1000
            (some "bctx")
            (some "hmac")
            "secret"
          ≡ ok trusted)
        × Matches request trusted
        × IsAbout trusted answer.0)
load_auth0_user_session_metadata-IsAbout_example =
    load_auth0_user_session_metadata-IsAbout network settings digests codec 1000 (some "bctx")
      (some "hmac") request

abbrev tools_of : Result Auth0UserSessionMetadataResult → List String
tools_of (err e) = []
tools_of (ok result) = result.allowed_tools

-- The route answers, with the tools of the metadata.
answer_tools : tools_of answer.0 ≡ ("list_vms" ∷ [])
unfolding load_auth0_user_session_metadata strings
answer_tools = refl
