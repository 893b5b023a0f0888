-- ===== src/EgressGateway/Models.antt =====
-- EgressRequest of packages/workflow_core/workflow_core/models.py with the gateway's subclass, and
-- EgressResponse (services/egress_gateway/egress_gateway/models.py).
use user_delegated_auth_serv.Base.{String, Option, List, Result, ok, ◌>>=◌, ◌>>◌}
use user_delegated_auth_serv.Json.{Fields}
use user_delegated_auth_serv.WorkflowCore.Models.{Primitive, Method, ExecutionGrant}
use user_delegated_auth_serv.WorkflowCore.Validation.{
  min_length_1, opt_min_length_1, dedupe_sorted, validate_argument_names,
}

pub record EgressRequest : Type 0 where
  pub primitive : Primitive
  pub method : Method
  pub target_mcp : String
  pub tool_name : String
  pub arguments : Fields
  pub workflow_id : String
  pub approval_id : Option String
  pub obo_token_ref : Option String
  pub execution_grant : Option ExecutionGrant
  pub execution_grant_signature : Option String
  pub token_scopes : List String
  pub token_audience : Option String
  pub access_token : Option String

pub record EgressResponse : Type 0 where
  pub primitive : String
  pub method : String
  pub target_mcp : String
  pub tool_name : String
  pub arguments : Fields
  pub workflow_id : String
  pub approval_id : Option String
  pub obo_token_ref : Option String
  pub outbound : Fields

unfoldable pub new_egress_request : EgressRequest → Result EgressRequest
unfolding min_length_1 dedupe_sorted validate_argument_names
new_egress_request r = do
  min_length_1 r.target_mcp
  min_length_1 r.tool_name
  validate_argument_names r.arguments
  min_length_1 r.workflow_id
  opt_min_length_1 r.approval_id
  opt_min_length_1 r.obo_token_ref
  opt_min_length_1 r.execution_grant_signature
  scopes ← dedupe_sorted r.token_scopes
  opt_min_length_1 r.token_audience
  ok (record r { token_scopes = scopes })
