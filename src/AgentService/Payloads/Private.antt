-- ===== src/AgentService/Payloads/Private.antt =====
-- What the browser and the stored thread state are kept from.
use user_delegated_auth_serv.Base.{mem, Bool, [], ◌∷◌, String, ◌≡◌, Option, some, ◌==◌}
use user_delegated_auth_serv.Json.{Json, Fields, get, put, str}
use user_delegated_auth_serv.Json.Strip.{HasPublic, HasPublicValues, strip_fields, map_option}
use user_delegated_auth_serv.AgentService.Models.{WorkflowRecord, status_text}
use user_delegated_auth_serv.AgentService.Payloads.{is_server_only, put_present}

-- The names of credentials, token references, users, sessions and tenants.
abbrev pub is_private_name : String → Bool
is_private_name key = mem key (
    "access_token" ∷ "authContextRef" ∷ "auth_context_ref" ∷ "authorization" ∷ "id_token"
    ∷ "oboTokenRef" ∷ "obo_token_ref" ∷ "refresh_token" ∷ "session_id" ∷ "tenant_id" ∷ "tokenRef"
    ∷ "token_ref" ∷ "user_id" ∷ [])

-- What a client is shown of a workflow.
pub record IsShown (workflow : WorkflowRecord) (payload : Fields) : Type 0 where
  pub hidden : HasPublic is_private_name payload
  pub workflow_id : get "workflow_id" payload ≡ some (str workflow.workflow_id)
  pub status : get "status" payload ≡ some (str (status_text workflow.status))
  pub plan_hash : get "plan_hash" payload ≡ some (str workflow.plan_hash)

-- The names of credentials and of what they allow, but for the token reference of the service.
abbrev pub is_secret_name : String → Bool
is_secret_name key = mem key (
    "Authorization" ∷ "accessToken" ∷ "access_token" ∷ "allowed_tools" ∷ "authContextRef"
    ∷ "auth_context_ref" ∷ "authorization" ∷ "tokenRef" ∷ "token_scopes" ∷ [])

abbrev pub is_token_ref : String → Bool
is_token_ref key = key == "token_ref"

-- The state of a thread as it is stored: the trusted user and session, the trusted token reference or
-- none, no secret name at any depth, and no other token reference inside.
pub record IsTrustedState (user_id session_id : String) (token_ref : Option String)
    (payload : Fields) : Type 0 where
  pub user : get "user_id" payload ≡ some (str user_id)
  pub session : get "session_id" payload ≡ some (str session_id)
  pub reference : get "token_ref" payload ≡ map_option str token_ref
  pub no_secret : HasPublic is_secret_name payload
  pub no_other_reference : HasPublicValues is_token_ref payload

module _ (state : Fields) (user_id session_id : String) (tenant_id : Option String) where
  abbrev with_session : Fields
  with_session =
      put "session_id" (str session_id)
        (put "user_id" (str user_id) (strip_fields is_server_only state))

  abbrev with_tenant : Fields
  with_tenant = put_present "tenant_id" tenant_id with_session
