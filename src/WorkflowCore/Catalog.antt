-- ===== src/WorkflowCore/Catalog.antt =====
-- packages/workflow_core/workflow_core/tool_catalog.py
pub mod Selection
use user_delegated_auth_serv.Base.{
  String, Bool, true, false, Option, none, some, List, [], ◌∷◌, map, Result, ok, err, key_error,
  ◌>>=◌, ◌==◌, mem, keep, any, is_empty, strip, sorted, sorted_set, not, ◌&&◌, if◌then◌else◌,
}
use user_delegated_auth_serv.WorkflowCore.Models.{OperationType, BlastRadius, ScopeRequirement}

pub record ToolAuthorizationSpec : Type 0 where
  pub tool_name : String
  pub auth0_scope_candidates : List String
  pub workflow_scope_templates : List String
  pub scope_args : List String
  pub op : OperationType
  pub hitl_description : String
  pub blast_radius : BlastRadius
  pub downstream_audience : Option String

abbrev pub has_dynamic_workflow_scopes : ToolAuthorizationSpec → Bool
has_dynamic_workflow_scopes spec = elim spec.scope_args [ [] ↦ false | _ ↦ true ]

unfoldable pub to_scope_requirements : ToolAuthorizationSpec → List ScopeRequirement
to_scope_requirements spec =
    map
      (λ scope_template. record {
        scope_template = scope_template;
        scope_args = spec.scope_args;
        op = spec.op;
        hitl_description = spec.hitl_description;
      })
      spec.workflow_scope_templates

unfoldable pub tool_authorization_catalog : List (String × ToolAuthorizationSpec)
tool_authorization_catalog =
    (
      "get_identity_profile",
      record {
        tool_name = "get_identity_profile";
        auth0_scope_candidates = "read:identity" ∷ "read:users" ∷ "profile" ∷ "email" ∷ [];
        workflow_scope_templates = "read:user:{subject_user_id}" ∷ [];
        scope_args = "subject_user_id" ∷ [];
        op = OperationType.read;
        hitl_description = "Read identity profile for selected user ID";
        blast_radius = BlastRadius.low;
        downstream_audience = none;
      },
    )
    ∷ (
      "get_developer_app",
      record {
        tool_name = "get_developer_app";
        auth0_scope_candidates = "read:developer_apps" ∷ "read:apps" ∷ "read:developer" ∷ [];
        workflow_scope_templates = "read:client:{appid}" ∷ [];
        scope_args = "appid" ∷ [];
        op = OperationType.read;
        hitl_description = "Read developer app metadata for selected app ID";
        blast_radius = BlastRadius.low;
        downstream_audience = none;
      },
    )
    ∷ (
      "get_account_balance",
      record {
        tool_name = "get_account_balance";
        auth0_scope_candidates = "read:billing" ∷ "read:accounts" ∷ [];
        workflow_scope_templates = "read:account:{account_id}" ∷ [];
        scope_args = "account_id" ∷ [];
        op = OperationType.read;
        hitl_description = "Read billing balance for selected account ID";
        blast_radius = BlastRadius.low;
        downstream_audience = none;
      },
    )
    ∷ (
      "propose_workflow_plan",
      record {
        tool_name = "propose_workflow_plan";
        auth0_scope_candidates = "plan:workflow" ∷ "read:workflow" ∷ [];
        workflow_scope_templates = "plan:workflow" ∷ [];
        scope_args = [];
        op = OperationType.read;
        hitl_description = "Review the user request and propose workflow steps";
        blast_radius = BlastRadius.none;
        downstream_audience = none;
      },
    )
    ∷ (
      "inspect_dns_record",
      record {
        tool_name = "inspect_dns_record";
        auth0_scope_candidates = "read:network" ∷ "read:dns" ∷ [];
        workflow_scope_templates = "read:dns:{record_name}" ∷ [];
        scope_args = "record_name" ∷ [];
        op = OperationType.read;
        hitl_description = "Inspect DNS record for selected hostname";
        blast_radius = BlastRadius.low;
        downstream_audience = some "network-mcp";
      },
    )
    ∷ (
      "update_firewall_rule",
      record {
        tool_name = "update_firewall_rule";
        auth0_scope_candidates = "write:network" ∷ "write:firewall" ∷ [];
        workflow_scope_templates = "write:firewall:{rule_id}" ∷ [];
        scope_args = "rule_id" ∷ [];
        op = OperationType.write;
        hitl_description = "Update firewall rule for selected rule ID";
        blast_radius = BlastRadius.high;
        downstream_audience = some "network-mcp";
      },
    )
    ∷ (
      "rotate_vpn_credential",
      record {
        tool_name = "rotate_vpn_credential";
        auth0_scope_candidates = "admin:network" ∷ "admin:vpn" ∷ [];
        workflow_scope_templates = "admin:vpn:{credential_id}" ∷ [];
        scope_args = "credential_id" ∷ [];
        op = OperationType.admin;
        hitl_description = "Rotate VPN credential for selected credential ID";
        blast_radius = BlastRadius.high;
        downstream_audience = some "network-mcp";
      },
    )
    ∷ (
      "inspect_vm",
      record {
        tool_name = "inspect_vm";
        auth0_scope_candidates = "read:cloud" ∷ "read:vm" ∷ [];
        workflow_scope_templates = "read:vm:{vm_id}" ∷ [];
        scope_args = "vm_id" ∷ [];
        op = OperationType.read;
        hitl_description = "Inspect virtual machine state for selected VM";
        blast_radius = BlastRadius.low;
        downstream_audience = some "cloud-mcp";
      },
    )
    ∷ (
      "restart_vm",
      record {
        tool_name = "restart_vm";
        auth0_scope_candidates = "write:cloud" ∷ "write:vm" ∷ [];
        workflow_scope_templates = "write:vm:{vm_id}" ∷ [];
        scope_args = "vm_id" ∷ [];
        op = OperationType.write;
        hitl_description = "Restart selected virtual machine";
        blast_radius = BlastRadius.medium;
        downstream_audience = some "cloud-mcp";
      },
    )
    ∷ (
      "update_iam_binding",
      record {
        tool_name = "update_iam_binding";
        auth0_scope_candidates = "admin:cloud" ∷ "admin:iam" ∷ [];
        workflow_scope_templates = "admin:iam:{principal_id}" ∷ [];
        scope_args = "principal_id" ∷ [];
        op = OperationType.admin;
        hitl_description = "Update IAM binding for selected principal";
        blast_radius = BlastRadius.high;
        downstream_audience = some "cloud-mcp";
      },
    )
    ∷ []

-- The entry under a key.
unfoldable pub find_tool :
    String → List (String × ToolAuthorizationSpec) → Option ToolAuthorizationSpec
find_tool name [] = none
find_tool name ((key, spec) ∷ entries) = if key == name then some spec else find_tool name entries

abbrev or_key_error : String → Option ToolAuthorizationSpec → Result ToolAuthorizationSpec
or_key_error name none = err (key_error name)
or_key_error name (some spec) = ok spec

unfoldable pub get_tool_authorization : String → Result ToolAuthorizationSpec
unfolding find_tool tool_authorization_catalog
get_tool_authorization tool_name =
    or_key_error tool_name (find_tool tool_name tool_authorization_catalog)

unfoldable pub scope_requirements_for_tool : String → Result (List ScopeRequirement)
unfolding to_scope_requirements
scope_requirements_for_tool tool_name = do
  spec ← get_tool_authorization tool_name
  ok (to_scope_requirements spec)

-- `sorted({scope.strip() for scope in issued_scopes if scope.strip()})`
unfoldable pub normalize_issued : List String → List String
unfolding sorted_set strip
normalize_issued issued_scopes =
    sorted_set (map strip (keep (λ scope. not (is_empty (strip scope))) issued_scopes))

-- `sorted(preferred)` if any candidate was issued, and else all that was issued.
prefer : List String → List String → List String
prefer issued [] = issued
prefer issued (scope ∷ scopes) = sorted (scope ∷ scopes)

abbrev select_from : List String → String → Result (List String)
select_from [] tool_name = ok []
select_from (scope ∷ scopes) tool_name = do
  spec ← get_tool_authorization tool_name
  ok (prefer (scope ∷ scopes) (keep (λ s. mem s (scope ∷ scopes)) spec.auth0_scope_candidates))

unfoldable pub select_auth0_scopes_for_tool : String → List String → Result (List String)
unfolding prefer normalize_issued
select_auth0_scopes_for_tool tool_name issued_scopes =
    select_from (normalize_issued issued_scopes) tool_name

unfoldable pub scope_requirements_for_auth0_token :
    String → List String → Result (List ScopeRequirement)
unfolding to_scope_requirements
scope_requirements_for_auth0_token tool_name issued_scopes = do
  selected_scopes ← select_auth0_scopes_for_tool tool_name issued_scopes
  spec ← get_tool_authorization tool_name
  if any (λ s. mem s selected_scopes) spec.auth0_scope_candidates
        && has_dynamic_workflow_scopes spec
      then ok (to_scope_requirements spec)
      else ok (
          map
            (λ scope. record {
              scope_template = scope;
              scope_args = [];
              op = spec.op;
              hitl_description = spec.hitl_description;
            })
            selected_scopes)
