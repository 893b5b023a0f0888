-- ===== src/WorkflowCore/Grants.antt =====
-- packages/workflow_core/workflow_core/hashing.py and grants.py
pub mod Signing
use Prim.Native.String.{◌++◌}
use user_delegated_auth_serv.Base.{
  ℕ, String, Bool, true, false, not, Option, none, some, List, [], ◌∷◌, Result, ok, err, ◌>>=◌,
  ◌>>◌, guard, execution_grant_error, is_empty, ◌==◌,
}
use user_delegated_auth_serv.Externals.{Digests}
use user_delegated_auth_serv.Json.{
  Json, bool, str, arr, obj, Items, nil, cons, Fields, end, field, strings,
}
use user_delegated_auth_serv.Json.Dumps.{dumps}
use user_delegated_auth_serv.WorkflowCore.Models.{
  OperationType, BlastRadius, Primitive, Method, WorkflowStep, ExecutionGrant, WorkflowPlan,
}

abbrev pub operation_text : OperationType → String
operation_text OperationType.read = "READ"
operation_text OperationType.write = "WRITE"
operation_text OperationType.admin = "ADMIN"

abbrev pub blast_text : BlastRadius → String
blast_text BlastRadius.none = "none"
blast_text BlastRadius.low = "low"
blast_text BlastRadius.medium = "medium"
blast_text BlastRadius.high = "high"

abbrev pub primitive_text : Primitive → String
primitive_text Primitive.discovery = "DISCOVERY"
primitive_text Primitive.read = "READ"
primitive_text Primitive.execute = "EXECUTE"
primitive_text Primitive.mutation = "MUTATION"

abbrev pub method_text : Method → String
method_text Method.get = "GET"
method_text Method.post = "POST"

-- `exclude_none=True`: a field that is `None` is left out.
abbrev optional : String → Option String → Fields → Fields
optional key none fs = fs
optional key (some s) fs = field key (str s) fs

module _ (lib : Digests) where
  abbrev optional_instant : String → Option ℕ → Fields → Fields
  optional_instant key none fs = fs
  optional_instant key (some t) fs = field key (str (lib.isoformat t)) fs

  unfoldable pub grant_payload : ExecutionGrant → Fields
  grant_payload g = field "workflow_id" (str g.workflow_id) (
      field "approval_id" (str g.approval_id) (
        field "plan_hash" (str g.plan_hash) (
          field "step_id" (str g.step_id) (
            field "primitive" (str (primitive_text g.primitive)) (
              field "method" (str (method_text g.method)) (
                field "target_mcp" (str g.target_mcp) (
                  field "tool_name" (str g.tool_name) (
                    field "arguments" (obj g.arguments) (
                      field "required_scopes" (arr (strings g.required_scopes)) (
                        optional "audience" g.audience (
                          field "user_id" (str g.user_id) (
                            field "session_id" (str g.session_id) (
                              optional "tenant_id" g.tenant_id (
                                field "approved_by_user_id" (str g.approved_by_user_id) (
                                  optional_instant "expires_at" g.expires_at (
                                    field "correlation_id" (str g.correlation_id)
                                      end))))))))))))))))

  unfoldable pub step_payload : WorkflowStep → Fields
  step_payload s = field "step_id" (str s.step_id) (
      field "target_agent" (str s.target_agent) (
        field "action" (str s.action) (
          field "input_model_type" (str s.input_model_type) (
            field "input_payload_json" (str s.input_payload_json) (
              field "required_scopes" (arr (strings s.required_scopes)) (
                optional "downstream_audience" s.downstream_audience (
                  field "operation_type" (str (operation_text s.operation_type)) (
                    field "blast_radius" (str (blast_text s.blast_radius)) (
                      field "hitl_description" (str s.hitl_description) (
                        field "mutates_external_state" (bool s.mutates_external_state) end))))))))))

  step_items : List WorkflowStep → Items
  unfolding step_payload
  step_items [] = nil
  step_items (s ∷ ss) = cons (obj (step_payload s)) (step_items ss)

  unfoldable pub plan_payload : WorkflowPlan → Fields
  unfolding step_items
  plan_payload p = field "workflow_id" (str p.workflow_id) (
      field "user_id" (str p.user_id) (
        field "session_id" (str p.session_id) (
          optional "tenant_id" p.tenant_id (
            field "created_at" (str (lib.isoformat p.created_at))
              (field "steps" (arr (step_items p.steps)) end)))))

  unfoldable pub canonical_json : Fields → String
  canonical_json payload = dumps false (obj payload)

  unfoldable pub plan_hash : WorkflowPlan → String
  unfolding canonical_json plan_payload
  plan_hash plan = "sha256:" ++ lib.sha256_hexdigest (canonical_json (plan_payload plan))

  unfoldable pub sign_execution_grant : ExecutionGrant → String → Result String
  unfolding canonical_json grant_payload
  sign_execution_grant grant secret = do
    guard (not (is_empty secret)) (execution_grant_error "execution grant secret is required")
    ok (lib.hmac_hexdigest secret (canonical_json (grant_payload grant)))

  abbrev check_signature : ExecutionGrant → String → String → Result (Unit {0})
  check_signature grant signature secret = do
    guard (not (is_empty signature)) (execution_grant_error "execution grant signature is required")
    expected ← sign_execution_grant grant secret
    guard (signature == expected) (execution_grant_error "invalid execution grant signature")

  unfoldable pub verify_execution_grant :
      ExecutionGrant → Option String → String → Result (Unit {0})
  unfolding sign_execution_grant
  verify_execution_grant grant none secret =
      err (execution_grant_error "execution grant signature is required")
  verify_execution_grant grant (some signature) secret = check_signature grant signature secret
