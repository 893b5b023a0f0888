-- ===== src/SessionState/Models.antt =====
-- packages/session_state/session_state/models.py. A `datetime` is a number of microseconds, as in
-- the models of workflows; `WorkflowStatus` there is a model with one text.
use user_delegated_auth_serv.Base.{ℕ, String, Option, Table}
use user_delegated_auth_serv.WorkflowCore.Models.{WorkflowPlan, ApprovedWorkflow}
use user_delegated_auth_serv.Json.{Json}

pub record SessionState : Type 0 where
  pub tenant_id : Option String
  pub user_id : String
  pub session_id : String
  pub token_ref : Option String
  pub auth_context_ref : Option String
  pub active_workflow_id : Option String
  pub version : ℕ
  pub values : Table String Json
  pub created_at : ℕ
  pub updated_at : ℕ

pub record WorkflowState : Type 0 where
  pub tenant_id : Option String
  pub user_id : String
  pub session_id : String
  pub workflow_id : String
  pub plan : Option WorkflowPlan
  pub approved_workflow : Option ApprovedWorkflow
  pub status : String
  pub version : ℕ
  pub created_at : ℕ
  pub updated_at : ℕ
