-- ===== src/Tests/Data.antt =====
-- Concrete values for the tests: a tagging digest and codec, an environment, an approved step of the
-- catalogue and the request for it.
use Prim.Native.String.{◌++◌}
use user_delegated_auth_serv.Base.{
  String, ◌==◌, true, Option, none, some, [], ◌∷◌, Result, ok, err, decimal, if◌then◌else◌,
}
use user_delegated_auth_serv.Externals.{Digests}
use user_delegated_auth_serv.Json.{str, Fields, end, field}
use user_delegated_auth_serv.WorkflowCore.Models.{
  OperationType, BlastRadius, Primitive, Method, WorkflowStep, ExecutionGrant, ToolIntent,
}
use user_delegated_auth_serv.SessionState.InternalAuth.{TrustedSessionContext, ContextCodec}
use user_delegated_auth_serv.EgressGateway.Models.{EgressRequest}
use user_delegated_auth_serv.EgressGateway.Handler.{Env}
use user_delegated_auth_serv.TokenBroker.Exchange.{Auth0}
use user_delegated_auth_serv.AgentService.Models.{PlanWorkflowRequest}

abbrev pub digests : Digests
digests = record {
  hmac_hexdigest = λ secret text. "hmac";
  sha256_hexdigest = λ text. "sha";
  isoformat = λ t. decimal t;
}

abbrev pub context : TrustedSessionContext
context = record {
  user_id = "user-1";
  session_id = "session-1";
  tenant_id = some "acme";
  token_ref = some "token:1";
  token_scopes = "write:cloud" ∷ [];
  allowed_tools = none;
  correlation_id = "approval-1";
  expires_at = 5000;
}

abbrev pub drop_first : String → Option String
drop_first String.[] = none
drop_first (String.◌∷◌ c s) = some s

abbrev pub tag : String → String
tag s = "b" ++ s

abbrev pub codec : ContextCodec
codec = record {
  urlsafe_b64encode = tag;
  urlsafe_b64decode = drop_first;
  model_validate_json = λ text. ok context;
}

abbrev pub env : Env
env name = if name == "INTERNAL_SERVICE_AUTH_SECRET" then some "secret" else none

abbrev pub restart_step : WorkflowStep
restart_step = record {
  step_id = "step-1";
  target_agent = "coordinator";
  action = "restart_vm";
  input_model_type = "restart_vm.arguments";
  input_payload_json = "{\"vm_id\":\"vm-7\"}";
  required_scopes = "write:vm:vm-7" ∷ [];
  downstream_audience = some "cloud-mcp";
  operation_type = OperationType.write;
  blast_radius = BlastRadius.medium;
  hitl_description = "Restart selected virtual machine";
  mutates_external_state = true;
}

abbrev pub vm_arguments : Fields
vm_arguments = field "vm_id" (str "vm-7") end

abbrev pub restart_intent : ToolIntent
restart_intent = record {
  agent_name = "coordinator";
  mcp_server = "elsewhere";
  tool_name = "restart_vm";
  arguments = vm_arguments;
  reason = none;
  metadata_ref = "llm";
}

abbrev pub plan_request : PlanWorkflowRequest
plan_request = record {
  query = "restart vm-7";
  user_id = "user-1";
  session_id = "session-1";
  thread_id = none;
  auth_context_ref = none;
  token_ref = some "token:1";
  token_scopes = [];
  allowed_tools = none;
  tenant_id = some "acme";
  messages = [];
  state = end;
}

-- The value, or `default` where it is an error.
abbrev pub value_or {ℓ} : {A : Type ℓ} → A → Result A → A
value_or default (ok a) = a
value_or default (err e) = default

abbrev pub restart_grant : ExecutionGrant
restart_grant = record {
  workflow_id = "wf-1";
  approval_id = "approval-1";
  plan_hash = "sha256:sha";
  step_id = "step-1";
  primitive = Primitive.execute;
  method = Method.post;
  target_mcp = "cloud-mcp";
  tool_name = "restart_vm";
  arguments = vm_arguments;
  required_scopes = "write:vm:vm-7" ∷ [];
  audience = some "cloud-api";
  user_id = "user-1";
  session_id = "session-1";
  tenant_id = some "acme";
  approved_by_user_id = "user-1";
  expires_at = some 9000;
  correlation_id = "wf-1:step-1";
}

abbrev pub restart_request : EgressRequest
restart_request = record {
  primitive = Primitive.execute;
  method = Method.post;
  target_mcp = "cloud-mcp";
  tool_name = "restart_vm";
  arguments = vm_arguments;
  workflow_id = "wf-1";
  approval_id = some "approval-1";
  obo_token_ref = some "obo:approval-1";
  execution_grant = some restart_grant;
  execution_grant_signature = some "hmac";
  token_scopes = "write:vm:vm-7" ∷ [];
  token_audience = some "cloud-api";
  access_token = some "token";
}

abbrev pub auth0 : Auth0
auth0 = record {
  post = λ p. ok (
      field "access_token" (str "token")
        (field "scope" (str "write:vm") (field "audience" (str "cloud-api") end)));
  claims_of = λ token. none;
}
