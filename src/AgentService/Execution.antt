-- ===== src/AgentService/Execution.antt =====
-- services/agent_service/agent_service/app.py: the token exchange and the execution of the steps of an
-- approved workflow.
pub mod Accepted
use Prim.Native.String.{◌++◌}
use mathlib.Core.List.{◌++◌ as append}
use user_delegated_auth_serv.Base.{
  ℕ, ◌+◌, ◌*◌, String, Bool, true, false, ◌||◌, ◌==◌, Option, none, some, List, [], ◌∷◌, Result, ok,
  err, workflow_execution_error, value_error, leb, rstrip_slash,
}
use user_delegated_auth_serv.Json.{Json, str, obj, Fields, get, is_true}
use user_delegated_auth_serv.WorkflowCore.Models.{
  OperationType, Primitive, Method, WorkflowStep, ExecutionGrant, ApprovedWorkflow,
}
use user_delegated_auth_serv.WorkflowCore.Validation.{new_execution_grant}
use user_delegated_auth_serv.WorkflowCore.Grants.{sign_execution_grant}
use user_delegated_auth_serv.TokenBroker.Models.{
  WorkflowTokenExchangeRequest, WorkflowTokenExchangeResponse, Auth0OnBehalfOfConfig,
}
use user_delegated_auth_serv.TokenBroker.Exchange.{exchange_for_workflow_token}
use user_delegated_auth_serv.SessionState.InternalAuth.{
  TrustedSessionContext, new_trusted_context, signed_session_context_headers,
}
use user_delegated_auth_serv.EgressGateway.Models.{EgressRequest}
use user_delegated_auth_serv.EgressGateway.Handler.{getenv_or, internal_auth_secret}
use user_delegated_auth_serv.AgentService.Models.{WorkflowRecord}
use user_delegated_auth_serv.AgentService.Store.{present}
use user_delegated_auth_serv.AgentService.Payloads.{strip_browser_private_keys}
use user_delegated_auth_serv.AgentService.Obo.{requested_audience, exchange_request, obo_config}
use user_delegated_auth_serv.AgentService.World.{
  Outside, EgressPost, Action, pure, lift, ◌>>=◌, ◌>>◌, read_clock,
}

abbrev pub primitive_of : OperationType → Primitive
primitive_of OperationType.read = Primitive.read
primitive_of op = Primitive.execute

abbrev pub method_of : OperationType → Method
method_of OperationType.read = Method.get
method_of op = Method.post

abbrev is_failed_status : Option Json → Bool
is_failed_status (some (str s)) = s == "failed"
is_failed_status _ = false

abbrev result_failed : Option Json → Bool
result_failed (some (obj mcp_result)) =
    is_failed_status (get "status" mcp_result) || is_true (get "is_error" mcp_result)
result_failed _ = true

abbrev outbound_failed : Option Json → Bool
outbound_failed (some (obj outbound)) = result_failed (get "mcp_result" outbound)
outbound_failed _ = false

unfoldable pub egress_result_failed : Fields → Bool
unfolding get
egress_result_failed result = outbound_failed (get "outbound" result)

-- `arguments` of the grant must be an object.
abbrev as_arguments : Json → Result Fields
as_arguments (obj fs) = ok fs
as_arguments v = err (value_error "input should be a valid dictionary")

abbrev is_over : Option ℕ → ℕ → Bool
is_over none now = false
is_over (some expires_at) now = leb expires_at now

abbrev target_of : WorkflowStep → Result String
target_of step = elim (present step.downstream_audience) [
  | some target ↦ ok target
  | none ↦ err (
      workflow_execution_error
        ("workflow step " ++ (step.step_id ++ " is missing a downstream MCP target")))
]

abbrev stop_if : Bool → String → Result (Unit {0})
stop_if true text = err (workflow_execution_error text)
stop_if false text = ok tt

abbrev pub grant_of :
    WorkflowRecord
    → ApprovedWorkflow
    → WorkflowTokenExchangeResponse
    → WorkflowStep
    → String
    → Fields
    → ExecutionGrant
grant_of workflow approval token step target_mcp arguments = record {
  workflow_id = workflow.workflow_id;
  approval_id = approval.approval_id;
  plan_hash = workflow.plan_hash;
  step_id = step.step_id;
  primitive = primitive_of step.operation_type;
  method = method_of step.operation_type;
  target_mcp = target_mcp;
  tool_name = step.action;
  arguments = arguments;
  required_scopes = step.required_scopes;
  audience = token.audience;
  user_id = workflow.user_id;
  session_id = workflow.session_id;
  tenant_id = workflow.tenant_id;
  approved_by_user_id = approval.approved_by_user_id;
  expires_at = approval.expires_at;
  correlation_id = workflow.workflow_id ++ (":" ++ step.step_id);
}

abbrev pub body_of :
    WorkflowRecord
    → ApprovedWorkflow
    → WorkflowTokenExchangeResponse
    → WorkflowStep
    → String
    → Fields
    → ExecutionGrant
    → String
    → EgressRequest
body_of workflow approval token step target_mcp arguments grant signature = record {
  primitive = primitive_of step.operation_type;
  method = method_of step.operation_type;
  target_mcp = target_mcp;
  tool_name = step.action;
  arguments = arguments;
  workflow_id = workflow.workflow_id;
  approval_id = some approval.approval_id;
  obo_token_ref = some ("obo:" ++ approval.approval_id);
  execution_grant = some grant;
  execution_grant_signature = some signature;
  token_scopes = token.scopes;
  token_audience = token.audience;
  access_token = some token.access_token;
}

module _ (outside : Outside) where
  open outside use {env, lib}

  abbrev post_exchange :
      Auth0OnBehalfOfConfig → WorkflowTokenExchangeRequest → Action WorkflowTokenExchangeResponse
  post_exchange config request w = (
    exchange_for_workflow_token outside.auth0 (outside.clock w.readings) config request,
    record w { exchanges = append w.exchanges (request ∷ []); readings = w.readings + 1 },
  )

  unfoldable pub exchange_obo_token :
      WorkflowRecord → ApprovedWorkflow → String → Action WorkflowTokenExchangeResponse
  unfolding requested_audience exchange_request obo_config exchange_for_workflow_token
  exchange_obo_token workflow approval auth_context_ref = do
    audience ← lift (requested_audience env workflow)
    request ← lift (exchange_request workflow approval auth_context_ref audience)
    lift (outside.parse_float (getenv_or env "AUTH0_OBO_TIMEOUT" "10"))
    config ← lift (obo_config env (some audience))
    post_exchange config request

  abbrev trusted_context_of : WorkflowRecord → ApprovedWorkflow → ℕ → TrustedSessionContext
  trusted_context_of workflow approval now = record {
    user_id = workflow.user_id;
    session_id = workflow.session_id;
    tenant_id = workflow.tenant_id;
    token_ref = workflow.token_ref;
    token_scopes = workflow.policy.required_scopes;
    allowed_tools = none;
    correlation_id = approval.approval_id;
    expires_at = now + 5 * 60 * 1000000;
  }

  -- The headers of `_egress_trusted_context`, signed.
  unfoldable pub egress_headers : WorkflowRecord → ApprovedWorkflow → Action (String × String)
  unfolding new_trusted_context signed_session_context_headers internal_auth_secret
  egress_headers workflow approval = do
    now ← read_clock outside
    context ← lift (new_trusted_context (trusted_context_of workflow approval now))
    lift (signed_session_context_headers lib outside.codec context (internal_auth_secret env))

  -- `client.post(…)`, `raise_for_status` and `json`
  abbrev post_egress : EgressPost → Action Fields
  post_egress request w =
      (outside.answer request, record w { posts = append w.posts (request ∷ []) })

  -- One round of the loop of `_execute_approved_steps`.
  unfoldable pub execute_step :
      WorkflowRecord
      → ApprovedWorkflow
      → WorkflowTokenExchangeResponse
      → WorkflowStep
      → Action Fields
  unfolding new_execution_grant sign_execution_grant egress_headers internal_auth_secret
      rstrip_slash egress_result_failed strip_browser_private_keys
  execute_step workflow approval token step = do
    now ← read_clock outside
    lift (stop_if (is_over approval.expires_at now) "approval_expired")
    target_mcp ← lift (target_of step)
    value ← lift (outside.loads step.input_payload_json)
    arguments ← lift (as_arguments value)
    grant ← lift (new_execution_grant (grant_of workflow approval token step target_mcp arguments))
    headers ← egress_headers workflow approval
    signature ← lift (sign_execution_grant lib grant (internal_auth_secret env))
    result ← post_egress (record {
      base_url = rstrip_slash (getenv_or env "EGRESS_GATEWAY_URL" "http://egress-gateway:8091");
      headers = headers;
      body = body_of workflow approval token step target_mcp arguments grant signature;
    })
    lift (stop_if (egress_result_failed result) "egress gateway reported failed MCP execution")
    pure (strip_browser_private_keys result)

  execute_steps :
      WorkflowRecord
      → ApprovedWorkflow
      → WorkflowTokenExchangeResponse
      → List WorkflowStep
      → Action (List Fields)
  unfolding execute_step
  execute_steps workflow approval token [] = pure []
  execute_steps workflow approval token (step ∷ steps) = do
    result ← execute_step workflow approval token step
    results ← execute_steps workflow approval token steps
    pure (result ∷ results)

  abbrev require_audience : Option String → Result (Unit {0})
  require_audience none = err (workflow_execution_error "obo token audience is required")
  require_audience (some audience) = ok tt

  unfoldable pub execute_approved_steps :
      WorkflowRecord → ApprovedWorkflow → WorkflowTokenExchangeResponse → Action (List Fields)
  unfolding execute_steps
  execute_approved_steps workflow approval token = do
    lift (require_audience (present token.audience))
    execute_steps workflow approval token workflow.proposal.steps
