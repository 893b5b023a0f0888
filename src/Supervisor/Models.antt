-- ===== src/Supervisor/Models.antt =====
-- services/supervisor/agent_service_supervisor/config.py and workflow_api_models.py
use user_delegated_auth_serv.Base.{
  String, not, Option, List, Result, ok, ◌>>◌, map, keep, strip, is_empty, sorted_set,
}
use user_delegated_auth_serv.WorkflowCore.Validation.{min_length_1, opt_min_length_1}

pub record SupervisorSettings : Type 0 where
  pub observability_sidecar_url : Option String
  pub auth0_domain : Option String
  pub auth0_audience : Option String
  pub auth0_management_client_id : Option String
  pub auth0_management_client_secret : Option String
  pub auth0_management_audience : Option String
  pub internal_service_auth_secret : Option String

unfoldable pub from_env : (String → Option String) → SupervisorSettings
from_env getenv = record {
  observability_sidecar_url = getenv "OBSERVABILITY_SIDECAR_URL";
  auth0_domain = getenv "AUTH0_DOMAIN";
  auth0_audience = getenv "AUTH0_AUDIENCE";
  auth0_management_client_id = getenv "AUTH0_MANAGEMENT_CLIENT_ID";
  auth0_management_client_secret = getenv "AUTH0_MANAGEMENT_CLIENT_SECRET";
  auth0_management_audience = getenv "AUTH0_MANAGEMENT_AUDIENCE";
  internal_service_auth_secret = getenv "INTERNAL_SERVICE_AUTH_SECRET";
}

pub record UserPersona : Type 0 where
  pub display_name : String
  pub headline : String
  pub greeting : String
  pub traits : List String

pub record Auth0UserSessionMetadataRequest : Type 0 where
  pub user_id : String
  pub session_id : String
  pub token_ref : String
  pub token_scopes : List String
  pub tenant_id : Option String
  pub audience : Option String
  pub user_email : Option String
  pub user_name : Option String

pub record Auth0UserSessionMetadataResult : Type 0 where
  pub scope : String
  pub audience : Option String
  pub token_ref : String
  pub user_id : String
  pub user_email : Option String
  pub allowed_tools : List String
  pub persona : UserPersona

-- `sorted({item.strip() for item in values if item.strip()})`
unfoldable pub stripped_set : List String → List String
unfolding strip sorted_set
stripped_set values = sorted_set (map strip (keep (λ item. not (is_empty (strip item))) values))

unfoldable pub new_metadata_request :
    Auth0UserSessionMetadataRequest → Result Auth0UserSessionMetadataRequest
unfolding min_length_1 stripped_set
new_metadata_request r = do
  min_length_1 r.user_id
  min_length_1 r.session_id
  min_length_1 r.token_ref
  opt_min_length_1 r.tenant_id
  opt_min_length_1 r.user_email
  opt_min_length_1 r.user_name
  ok (record r { token_scopes = stripped_set r.token_scopes })

unfoldable pub new_persona : UserPersona → Result UserPersona
unfolding min_length_1
new_persona p = do
  min_length_1 p.display_name
  min_length_1 p.headline
  min_length_1 p.greeting
  ok p
