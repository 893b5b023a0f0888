-- ===== src/WorkflowCore/Validation.antt =====
-- The field constraints and validators of packages/workflow_core/workflow_core/models.py: each
-- function is the model's constructor, which refuses the fields or normalises them.
use user_delegated_auth_serv.Base.{
  String, Option, none, some, List, Result, ok, err, value_error, guard, ◌>>=◌, ◌>>◌, not, any,
  is_empty, sorted_set,
}
use user_delegated_auth_serv.Json.{Fields, keys}
use user_delegated_auth_serv.WorkflowCore.Models.{
  ToolProposal, ToolIntent, ScopeRequirement, WorkflowStep, WorkflowPolicyDecision, ExecutionGrant,
  WorkflowPlan, ApprovedWorkflow,
}

-- `Field(..., min_length=1)`
unfoldable pub min_length_1 : String → Result (Unit {0})
min_length_1 s = guard (not (is_empty s)) (value_error "string should have at least 1 character")

abbrev pub opt_min_length_1 : Option String → Result (Unit {0})
opt_min_length_1 none = ok tt
opt_min_length_1 (some s) = min_length_1 s

unfoldable pub require_non_empty_strings : List String → Result (Unit {0})
require_non_empty_strings values =
    guard (not (any is_empty values)) (value_error "values must be non-empty strings")

unfoldable pub dedupe_sorted : List String → Result (List String)
unfolding require_non_empty_strings sorted_set
dedupe_sorted values = do require_non_empty_strings values; ok (sorted_set values)

unfoldable pub validate_argument_names : Fields → Result (Unit {0})
unfolding require_non_empty_strings
validate_argument_names arguments = require_non_empty_strings (keys arguments)

unfoldable pub new_tool_proposal : ToolProposal → Result ToolProposal
unfolding min_length_1 validate_argument_names
new_tool_proposal p = do
  min_length_1 p.agent_name
  min_length_1 p.tool_name
  validate_argument_names p.arguments
  ok p

unfoldable pub new_tool_intent : ToolIntent → Result ToolIntent
unfolding min_length_1 validate_argument_names
new_tool_intent i = do
  min_length_1 i.agent_name
  min_length_1 i.mcp_server
  min_length_1 i.tool_name
  validate_argument_names i.arguments
  min_length_1 i.metadata_ref
  ok i

unfoldable pub new_scope_requirement : ScopeRequirement → Result ScopeRequirement
unfolding min_length_1 require_non_empty_strings
new_scope_requirement r = do
  min_length_1 r.scope_template
  require_non_empty_strings r.scope_args
  min_length_1 r.hitl_description
  ok r

-- `input_payload_json` has at least two characters.
abbrev pub min_length_2 : String → Result (Unit {0})
min_length_2 String.[] = err (value_error "string should have at least 2 characters")
min_length_2 (String.◌∷◌ c s) =
    guard (not (is_empty s)) (value_error "string should have at least 2 characters")

unfoldable pub new_workflow_step : WorkflowStep → Result WorkflowStep
unfolding min_length_1 dedupe_sorted
new_workflow_step s = do
  min_length_1 s.step_id
  min_length_1 s.target_agent
  min_length_1 s.action
  min_length_1 s.input_model_type
  min_length_2 s.input_payload_json
  scopes ← dedupe_sorted s.required_scopes
  ok (record s { required_scopes = scopes })

unfoldable pub new_policy_decision : WorkflowPolicyDecision → Result WorkflowPolicyDecision
unfolding min_length_1 dedupe_sorted
new_policy_decision d = do
  min_length_1 d.human_description
  scopes ← dedupe_sorted d.required_scopes
  ok (record d { required_scopes = scopes })

unfoldable pub new_execution_grant : ExecutionGrant → Result ExecutionGrant
unfolding min_length_1 dedupe_sorted validate_argument_names
new_execution_grant g = do
  min_length_1 g.workflow_id
  min_length_1 g.approval_id
  min_length_1 g.plan_hash
  min_length_1 g.step_id
  min_length_1 g.target_mcp
  min_length_1 g.tool_name
  validate_argument_names g.arguments
  scopes ← dedupe_sorted g.required_scopes
  opt_min_length_1 g.audience
  min_length_1 g.user_id
  min_length_1 g.session_id
  opt_min_length_1 g.tenant_id
  min_length_1 g.approved_by_user_id
  min_length_1 g.correlation_id
  ok (record g { required_scopes = scopes })

unfoldable pub new_workflow_plan : WorkflowPlan → Result WorkflowPlan
unfolding min_length_1
new_workflow_plan p = do
  min_length_1 p.workflow_id
  min_length_1 p.user_id
  min_length_1 p.session_id
  ok p

unfoldable pub new_approved_workflow : ApprovedWorkflow → Result ApprovedWorkflow
unfolding min_length_1 dedupe_sorted
new_approved_workflow a = do
  min_length_1 a.workflow_id
  min_length_1 a.approval_id
  min_length_1 a.plan_hash
  min_length_1 a.approved_by_user_id
  scopes ← dedupe_sorted a.approved_scopes
  ok (record a { approved_scopes = scopes })
