-- ===== src/WorkflowCore/Models.antt =====
-- The data of packages/workflow_core/workflow_core/models.py. A `datetime` is the number of
-- microseconds since the epoch, in UTC; `dict[str, object]` is `Fields`.
use user_delegated_auth_serv.Base.{ℕ, String, Bool, Option, List}
use user_delegated_auth_serv.Json.{Fields}

pub data OperationType : Type 0 where
  read write admin : OperationType

pub data BlastRadius : Type 0 where
  none low medium high : BlastRadius

pub data Primitive : Type 0 where
  discovery read execute mutation : Primitive

pub data Method : Type 0 where
  get post : Method

pub record ToolProposal : Type 0 where
  pub agent_name : String
  pub tool_name : String
  pub arguments : Fields
  pub reason : Option String

pub record ToolIntent : Type 0 where
  pub agent_name : String
  pub mcp_server : String
  pub tool_name : String
  pub arguments : Fields
  pub reason : Option String
  pub metadata_ref : String

pub record ScopeRequirement : Type 0 where
  pub scope_template : String
  pub scope_args : List String
  pub op : OperationType
  pub hitl_description : String

pub record WorkflowStep : Type 0 where
  pub step_id : String
  pub target_agent : String
  pub action : String
  pub input_model_type : String
  pub input_payload_json : String
  pub required_scopes : List String
  pub downstream_audience : Option String
  pub operation_type : OperationType
  pub blast_radius : BlastRadius
  pub hitl_description : String
  pub mutates_external_state : Bool

pub record WorkflowPolicyDecision : Type 0 where
  pub requires_hitl : Bool
  pub blast_radius : BlastRadius
  pub human_description : String
  pub required_scopes : List String
  pub denied_reason : Option String

pub record ExecutionGrant : Type 0 where
  pub workflow_id : String
  pub approval_id : String
  pub plan_hash : String
  pub step_id : String
  pub primitive : Primitive
  pub method : Method
  pub target_mcp : String
  pub tool_name : String
  pub arguments : Fields
  pub required_scopes : List String
  pub audience : Option String
  pub user_id : String
  pub session_id : String
  pub tenant_id : Option String
  pub approved_by_user_id : String
  pub expires_at : Option ℕ
  pub correlation_id : String

pub record WorkflowPlan : Type 0 where
  pub workflow_id : String
  pub user_id : String
  pub session_id : String
  pub tenant_id : Option String
  pub created_at : ℕ
  pub steps : List WorkflowStep

pub record ApprovedWorkflow : Type 0 where
  pub workflow_id : String
  pub approval_id : String
  pub plan_hash : String
  pub approved_at : ℕ
  pub approved_by_user_id : String
  pub approved_scopes : List String
  pub expires_at : Option ℕ
