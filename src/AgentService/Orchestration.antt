-- ===== src/AgentService/Orchestration.antt =====
-- services/agent_service/agent_service/orchestration.py: from advisory intents to workflow steps.
pub mod Dispatched
use Prim.Native.String.{◌++◌}
use mathlib.Core.List.{◌++◌ as append}
use text.Mathlib.Text.{starts_with}
use user_delegated_auth_serv.Base.{
  ℕ, ◌+◌, String, Bool, true, false, not, ◌||◌, ◌&&◌, Option, none, some, List, [], ◌∷◌, map,
  Result, ok, err, ◌>>=◌, scope_materialization_error, length, mem, is_empty, decimal, ◌==◌,
  if◌then◌else◌,
}
use user_delegated_auth_serv.Json.{Json, str, obj, Fields, end, field}
use user_delegated_auth_serv.Json.Dumps.{dumps}
use user_delegated_auth_serv.WorkflowCore.Models.{
  OperationType, ToolIntent, ToolProposal, ScopeRequirement, WorkflowStep, WorkflowPolicyDecision,
}
use user_delegated_auth_serv.WorkflowCore.Validation.{new_tool_proposal, new_workflow_step}
use user_delegated_auth_serv.WorkflowCore.Catalog.{
  ToolAuthorizationSpec, tool_authorization_catalog, get_tool_authorization,
  scope_requirements_for_tool, scope_requirements_for_auth0_token,
}
use user_delegated_auth_serv.WorkflowCore.Authz.{materialize_scopes_for_proposal}
use user_delegated_auth_serv.WorkflowCore.Policy.{evaluate_workflow_policy, is_elevated}
use user_delegated_auth_serv.AgentService.Models.{PlanWorkflowRequest}

pub record DispatchResult : Type 0 where
  pub tool_intents : List ToolIntent
  pub steps : List WorkflowStep
  pub policy : WorkflowPolicyDecision

unfoldable pub available_tool_names : List String
unfolding tool_authorization_catalog
available_tool_names = map (λ entry. entry.0) tool_authorization_catalog

-- `allowed is not None and tool_name not in allowed`
abbrev pub is_denied : Option (List String) → String → Bool
is_denied none tool_name = false
is_denied (some allowed) tool_name = not (mem tool_name allowed)

unfoldable pub intent_material : ToolIntent → String
intent_material intent = dumps true (
    obj (
      field "arguments" (obj intent.arguments) (
        field "mcp_server" (str intent.mcp_server) (field "tool_name" (str intent.tool_name) end))))

-- `spec.downstream_audience or "workflow-runtime"`
abbrev server_of : Option String → String
server_of none = "workflow-runtime"
server_of (some s) = if is_empty s then "workflow-runtime" else s

abbrev normalized : ToolIntent → ToolAuthorizationSpec → ToolIntent
normalized intent spec = record intent {
  mcp_server = server_of spec.downstream_audience;
  metadata_ref =
      if starts_with intent.metadata_ref "tool_catalog:"
      then intent.metadata_ref
      else intent.metadata_ref ++ ("|validated:" ++ intent.tool_name);
}

abbrev normalized_by : ToolIntent → Result ToolAuthorizationSpec → Option ToolIntent
normalized_by intent (ok spec) = some (normalized intent spec)
normalized_by intent (err e) = none

-- `None` for a tool outside the catalogue; the entry is there for one inside.
unfoldable pub normalize_tool_intent : ToolIntent → Option ToolIntent
unfolding available_tool_names get_tool_authorization
normalize_tool_intent intent =
    if mem intent.tool_name available_tool_names
    then normalized_by intent (get_tool_authorization intent.tool_name)
    else none

abbrev requirements_for : String → List String → Result (List ScopeRequirement)
requirements_for tool_name [] = scope_requirements_for_tool tool_name
requirements_for tool_name (scope ∷ scopes) =
    scope_requirements_for_auth0_token tool_name (scope ∷ scopes)

abbrev proposal_of : ToolIntent → ToolProposal
proposal_of intent = record {
  agent_name = intent.agent_name;
  tool_name = intent.tool_name;
  arguments = intent.arguments;
  reason = intent.reason;
}

abbrev step_of : ℕ → ToolIntent → ToolAuthorizationSpec → List String → WorkflowStep
step_of index intent spec required_scopes = record {
  step_id = "step-" ++ decimal index;
  target_agent = intent.agent_name;
  action = intent.tool_name;
  input_model_type = intent.tool_name ++ ".arguments";
  input_payload_json = dumps true (obj intent.arguments);
  required_scopes = required_scopes;
  downstream_audience = spec.downstream_audience;
  operation_type = spec.op;
  blast_radius = spec.blast_radius;
  hitl_description = spec.hitl_description;
  mutates_external_state = is_elevated spec.op;
}

unfoldable pub step_from_intent : ℕ → ToolIntent → List String → Result WorkflowStep
unfolding get_tool_authorization new_tool_proposal materialize_scopes_for_proposal new_workflow_step
step_from_intent index intent token_scopes = do
  spec ← get_tool_authorization intent.tool_name
  proposal ← new_tool_proposal (proposal_of intent)
  requirements ← requirements_for intent.tool_name token_scopes
  required_scopes ← materialize_scopes_for_proposal proposal requirements
  new_workflow_step (step_of index intent spec required_scopes)

-- The lists that the loop of `dispatch` fills.
pub record Progress : Type 0 where
  pub validated : List ToolIntent
  pub steps : List WorkflowStep
  pub seen : List String

-- `except ScopeMaterializationError: continue`; any other exception leaves the loop.
abbrev add_step : Progress → ToolIntent → String → Result WorkflowStep → Result Progress
add_step p intent material (ok step) = ok (record p {
  validated = append p.validated (intent ∷ []);
  steps = append p.steps (step ∷ []);
  seen = material ∷ p.seen;
})
add_step p intent material (err (scope_materialization_error text)) = ok p
add_step p intent material (err e) = err e

abbrev take_normalized :
    Option (List String) → List String → Progress → Option ToolIntent → Result Progress
take_normalized allowed token_scopes p none = ok p
take_normalized allowed token_scopes p (some intent) =
    if is_denied allowed intent.tool_name || mem (intent_material intent) p.seen
    then ok p
    else add_step p intent (intent_material intent)
        (step_from_intent (length p.steps + 1) intent token_scopes)

-- One round of the loop.
unfoldable pub take_intent :
    Option (List String) → List String → Progress → ToolIntent → Result Progress
unfolding normalize_tool_intent intent_material step_from_intent
take_intent allowed token_scopes p intent =
    take_normalized allowed token_scopes p (normalize_tool_intent intent)

take_intents : Option (List String) → List String → Progress → List ToolIntent → Result Progress
unfolding take_intent
take_intents allowed token_scopes p [] = ok p
take_intents allowed token_scopes p (intent ∷ intents) = do
  q ← take_intent allowed token_scopes p intent
  take_intents allowed token_scopes q intents

abbrev start : Progress
start = record { validated = []; steps = []; seen = [] }

unfoldable pub dispatch : PlanWorkflowRequest → List ToolIntent → Result DispatchResult
unfolding take_intents evaluate_workflow_policy
dispatch request tool_intents = do
  p ← take_intents request.allowed_tools request.token_scopes start tool_intents
  policy ← evaluate_workflow_policy p.steps
  ok (record { tool_intents = p.validated; steps = p.steps; policy = policy })

dedupe_from : List String → List ToolIntent → List ToolIntent
unfolding intent_material
dedupe_from seen [] = []
dedupe_from seen (intent ∷ intents) =
    let first = intent ∷ dedupe_from (intent_material intent ∷ seen) intents in
    let again = dedupe_from seen intents in
    if mem (intent_material intent) seen then again else first

unfoldable pub dedupe_intents : List ToolIntent → List ToolIntent
unfolding dedupe_from
dedupe_intents tool_intents = dedupe_from [] tool_intents
