-- ===== src/Tests/Core.antt =====
-- Tests of the workflow core and of the dispatcher.
use user_delegated_auth_serv.Base.{
  String, ◌≡◌, refl, List, [], ◌∷◌, ok, true, false, none, some, mem, any, IsAscending, ◌↔◌,
}
use user_delegated_auth_serv.WorkflowCore.Models.{
  OperationType, BlastRadius, WorkflowPolicyDecision, ScopeRequirement,
}
use user_delegated_auth_serv.AgentService.Orchestration.{dispatch, DispatchResult}
use user_delegated_auth_serv.AgentService.Orchestration.Dispatched.{IsSound, dispatch-IsSound}
use user_delegated_auth_serv.WorkflowCore.Policy.{evaluate_workflow_policy, blast_rank}
use user_delegated_auth_serv.WorkflowCore.Policy.Decision.{
  IsGreatest, evaluate_workflow_policy-requires_hitl, evaluate_workflow_policy-required_scopes,
  evaluate_workflow_policy-blast_radius,
}
use user_delegated_auth_serv.WorkflowCore.Authz.{materialize_scope, materialize_scopes, has_brace}
use user_delegated_auth_serv.WorkflowCore.Authz.Scopes.{
  IsRendered, materialize_scope-eq-ok_iff, materialize_scopes-IsPlain,
}
use user_delegated_auth_serv.WorkflowCore.Catalog.{
  ToolAuthorizationSpec, get_tool_authorization, select_auth0_scopes_for_tool,
}
use user_delegated_auth_serv.WorkflowCore.Catalog.Selection.{
  IsConsistent, is_issued, select_auth0_scopes_for_tool-is_issued,
  get_tool_authorization-IsConsistent,
}
use user_delegated_auth_serv.WorkflowCore.Grants.{verify_execution_grant}
use user_delegated_auth_serv.WorkflowCore.Grants.Signing.{
  IsSigned, verify_execution_grant-eq-ok_iff,
}
use user_delegated_auth_serv.Tests.Data.{
  restart_intent, plan_request, restart_step, value_or, vm_arguments, restart_grant, digests,
}

abbrev no_decision : WorkflowPolicyDecision
no_decision = record {
  requires_hitl = false;
  blast_radius = BlastRadius.none;
  human_description = "";
  required_scopes = [];
  denied_reason = none;
}

abbrev decided : WorkflowPolicyDecision
decided = value_or no_decision (evaluate_workflow_policy (restart_step ∷ []))

decided_lem : evaluate_workflow_policy (restart_step ∷ []) ≡ ok decided
unfolding evaluate_workflow_policy
    user_delegated_auth_serv.WorkflowCore.Validation.new_policy_decision
    user_delegated_auth_serv.Json.Dumps.join
decided_lem = refl

requires_hitl_example : decided.requires_hitl ≡ true
requires_hitl_example =
    evaluate_workflow_policy-requires_hitl (restart_step ∷ []) decided decided_lem

abbrev dispatched : DispatchResult
dispatched =
    value_or (record { tool_intents = []; steps = []; policy = no_decision })
      (dispatch plan_request (restart_intent ∷ restart_intent ∷ []))

dispatched_lem : dispatch plan_request (restart_intent ∷ restart_intent ∷ []) ≡ ok dispatched
unfolding dispatch user_delegated_auth_serv.WorkflowCore.Catalog.scope_requirements_for_tool
    user_delegated_auth_serv.Json.get user_delegated_auth_serv.Base.decimal
    user_delegated_auth_serv.Json.Dumps.dumps
    user_delegated_auth_serv.WorkflowCore.Validation.new_policy_decision
dispatched_lem = refl

dispatch-IsSound_example : IsSound none dispatched.tool_intents dispatched.steps
dispatch-IsSound_example =
    dispatch-IsSound plan_request (restart_intent ∷ restart_intent ∷ []) dispatched dispatched_lem

required_scopes_example :
    ((z : String)
      → mem z decided.required_scopes ≡ any (λ s. mem z s.required_scopes) (restart_step ∷ []))
    × IsAscending decided.required_scopes
required_scopes_example =
    evaluate_workflow_policy-required_scopes (restart_step ∷ []) decided decided_lem

blast_radius_example : IsGreatest (blast_rank decided.blast_radius) (restart_step ∷ [])
blast_radius_example = evaluate_workflow_policy-blast_radius restart_step [] decided decided_lem

abbrev vm_requirement : ScopeRequirement
vm_requirement = record {
  scope_template = "write:vm:{vm_id}";
  scope_args = "vm_id" ∷ [];
  op = OperationType.write;
  hitl_description = "Restart selected virtual machine";
}

materialize_scope_example :
    (materialize_scope vm_requirement vm_arguments ≡ ok "write:vm:vm-7")
    ↔ IsRendered vm_requirement vm_arguments "write:vm:vm-7"
materialize_scope_example = materialize_scope-eq-ok_iff vm_requirement vm_arguments "write:vm:vm-7"

materialized_lem : materialize_scopes (vm_requirement ∷ []) vm_arguments ≡ ok ("write:vm:vm-7" ∷ [])
unfolding materialize_scopes user_delegated_auth_serv.Json.get
materialized_lem = refl

materialize_scopes_example :
    IsAscending ("write:vm:vm-7" ∷ [])
    × ((z : String) → mem z ("write:vm:vm-7" ∷ []) ≡ true → has_brace z ≡ false)
materialize_scopes_example =
    materialize_scopes-IsPlain (vm_requirement ∷ []) vm_arguments ("write:vm:vm-7" ∷ [])
      materialized_lem

abbrev issued : List String
issued = "read:vm" ∷ " write:vm " ∷ "" ∷ []

abbrev selected : List String
selected = "write:vm" ∷ []

selected_lem : select_auth0_scopes_for_tool "restart_vm" issued ≡ ok selected
unfolding select_auth0_scopes_for_tool get_tool_authorization user_delegated_auth_serv.Base.sorted
selected_lem = refl

select_auth0_scopes_example :
    ((z : String) → mem z selected ≡ true → is_issued z issued ≡ true)
    × (selected ≡ [] → (z : String) → is_issued z issued ≡ false)
select_auth0_scopes_example =
    select_auth0_scopes_for_tool-is_issued "restart_vm" issued selected selected_lem

abbrev no_spec : ToolAuthorizationSpec
no_spec = record {
  tool_name = "";
  auth0_scope_candidates = [];
  workflow_scope_templates = [];
  scope_args = [];
  op = OperationType.read;
  hitl_description = "";
  blast_radius = BlastRadius.none;
  downstream_audience = none;
}

abbrev restart_spec : ToolAuthorizationSpec
restart_spec = value_or no_spec (get_tool_authorization "restart_vm")

restart_spec_lem : get_tool_authorization "restart_vm" ≡ ok restart_spec
unfolding get_tool_authorization
restart_spec_lem = refl

get_tool_authorization_example : IsConsistent "restart_vm" restart_spec
get_tool_authorization_example =
    get_tool_authorization-IsConsistent "restart_vm" restart_spec restart_spec_lem

verify_execution_grant_example :
    (verify_execution_grant digests restart_grant (some "hmac") "secret" ≡ ok tt)
    ↔ IsSigned digests restart_grant (some "hmac") "secret"
verify_execution_grant_example =
    verify_execution_grant-eq-ok_iff digests restart_grant (some "hmac") "secret"
