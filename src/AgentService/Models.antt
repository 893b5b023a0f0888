-- ===== src/AgentService/Models.antt =====
-- The data of services/agent_service/agent_service/models.py. Requests are as pydantic leaves them:
-- the fields that must not be empty are not, and scopes and tools are sorted.
use user_delegated_auth_serv.Base.{
  ℕ, String, Bool, Option, none, some, List, Result, ok, ◌>>=◌, ◌>>◌, guard, not, any, is_empty,
  value_error, sorted_set,
}
use user_delegated_auth_serv.WorkflowCore.Validation.{min_length_1, opt_min_length_1}
use user_delegated_auth_serv.Json.{Fields}
use user_delegated_auth_serv.WorkflowCore.Models.{
  ApprovedWorkflow, ToolIntent, WorkflowPlan, WorkflowPolicyDecision,
}

pub record PlanWorkflowRequest : Type 0 where
  pub query : String
  pub user_id : String
  pub session_id : String
  pub thread_id : Option String
  pub auth_context_ref : Option String
  pub token_ref : Option String
  pub token_scopes : List String
  pub allowed_tools : Option (List String)
  pub tenant_id : Option String
  pub messages : List Fields
  pub state : Fields

pub record SanitizedWorkflowContext : Type 0 where
  pub query : String
  pub user_id : String
  pub session_id : String
  pub tenant_id : Option String
  pub token_ref : Option String
  pub token_scopes : List String
  pub allowed_tools : Option (List String)

abbrev scopes_given : List String → Result (List String)
scopes_given value = do
  guard (not (any is_empty value)) (value_error "token scopes must be non-empty strings")
  ok (sorted_set value)

abbrev tools_given : Option (List String) → Result (Option (List String))
tools_given none = ok none
tools_given (some value) = do
  guard (not (any is_empty value)) (value_error "allowed tools must be non-empty strings")
  ok (some (sorted_set value))

unfoldable pub new_sanitized_context : SanitizedWorkflowContext → Result SanitizedWorkflowContext
unfolding min_length_1 sorted_set
new_sanitized_context c = do
  min_length_1 c.query
  min_length_1 c.user_id
  min_length_1 c.session_id
  opt_min_length_1 c.tenant_id
  opt_min_length_1 c.token_ref
  scopes ← scopes_given c.token_scopes
  tools ← tools_given c.allowed_tools
  ok (record c { token_scopes = scopes; allowed_tools = tools })

unfoldable pub from_request : PlanWorkflowRequest → Result SanitizedWorkflowContext
unfolding new_sanitized_context
from_request request = new_sanitized_context (record {
  query = request.query;
  user_id = request.user_id;
  session_id = request.session_id;
  tenant_id = request.tenant_id;
  token_ref = request.token_ref;
  token_scopes = request.token_scopes;
  allowed_tools = request.allowed_tools;
})

pub record SessionRecord : Type 0 where
  pub user_id : String
  pub session_id : String
  pub token_ref : Option String
  pub auth_context_ref : Option String
  pub token_scopes : List String
  pub allowed_tools : Option (List String)
  pub tenant_id : Option String
  pub updated_at : ℕ

pub record TokenRegistryRecord : Type 0 where
  pub user_id : String
  pub session_id : String
  pub tenant_id : Option String
  pub token_ref : String
  pub auth_context_ref : String
  pub updated_at : ℕ

pub data WorkflowStatus : Type 0 where
  awaiting_approval ready approved executing completed failed cancelled : WorkflowStatus

abbrev pub status_text : WorkflowStatus → String
status_text WorkflowStatus.awaiting_approval = "awaiting_approval"
status_text WorkflowStatus.ready = "ready"
status_text WorkflowStatus.approved = "approved"
status_text WorkflowStatus.executing = "executing"
status_text WorkflowStatus.completed = "completed"
status_text WorkflowStatus.failed = "failed"
status_text WorkflowStatus.cancelled = "cancelled"

pub record WorkflowRecord : Type 0 where
  pub workflow_id : String
  pub thread_id : Option String
  pub session_id : String
  pub user_id : String
  pub tenant_id : Option String
  pub status : WorkflowStatus
  pub proposal : WorkflowPlan
  pub plan_hash : String
  pub tool_intents : List ToolIntent
  pub policy : WorkflowPolicyDecision
  pub token_ref : Option String
  pub approved_workflow : Option ApprovedWorkflow
  pub egress_results : List Fields
  pub created_at : ℕ

pub record WorkflowApprovalRequest : Type 0 where
  pub approved : Bool
  pub plan_hash : String

pub record WorkflowApprovalResponse : Type 0 where
  pub workflow : WorkflowRecord
  pub token_exchange : Fields

pub record TokenContextRegistrationRequest : Type 0 where
  pub token_ref : String
  pub auth_context_ref : String

pub record ThreadCreateRequest : Type 0 where
  pub thread_id : Option String
  pub user_id : String
  pub session_id : String
  pub tenant_id : Option String
  pub token_ref : Option String
  pub auth_context_ref : Option String
  pub token_scopes : List String
  pub allowed_tools : Option (List String)
  pub title : Option String
  pub messages : List Fields
  pub state : Fields

pub record ThreadRecord : Type 0 where
  pub thread_id : String
  pub user_id : String
  pub session_id : String
  pub tenant_id : Option String
  pub messages : List Fields
  pub state : Fields
  pub title : Option String
  pub token_ref : Option String
  pub active_workflow_id : Option String
  pub created_at : ℕ
  pub updated_at : ℕ
