-- ===== src/AgentService/Payloads.antt =====
-- services/agent_service/agent_service/app.py: what of a workflow and of a thread's state leaves the
-- service.
pub mod Private
use user_delegated_auth_serv.Base.{ℕ, String, Bool, Option, none, some, List, [], ◌∷◌, mem}
use user_delegated_auth_serv.Externals.{Digests}
use user_delegated_auth_serv.Json.{
  Json, null, bool, str, arr, obj, Items, nil, cons, Fields, end, field, strings, nullable, put,
}
use user_delegated_auth_serv.Json.Strip.{strip_keys, strip_fields}
use user_delegated_auth_serv.WorkflowCore.Models.{
  ToolIntent, WorkflowStep, WorkflowPolicyDecision, WorkflowPlan, ApprovedWorkflow,
}
use user_delegated_auth_serv.WorkflowCore.Grants.{operation_text, blast_text}
use user_delegated_auth_serv.AgentService.Models.{WorkflowRecord, status_text}

-- `_BROWSER_PRIVATE_KEYS`
unfoldable pub browser_private_keys : List String
browser_private_keys =
    "access_token" ∷ "authContextRef" ∷ "auth_context_ref" ∷ "authorization" ∷ "id_token"
    ∷ "oboTokenRef" ∷ "obo_token_ref" ∷ "refresh_token" ∷ "session_id" ∷ "tenant_id" ∷ "tokenRef"
    ∷ "token_ref" ∷ "user_id" ∷ []

-- `_SERVER_ONLY_STATE_KEYS`
unfoldable pub server_only_state_keys : List String
server_only_state_keys =
    "Authorization" ∷ "accessToken" ∷ "access_token" ∷ "allowed_tools" ∷ "authContextRef"
    ∷ "auth_context_ref" ∷ "authorization" ∷ "tokenRef" ∷ "token_ref" ∷ "token_scopes" ∷ []

abbrev pub is_browser_private : String → Bool
is_browser_private key = mem key browser_private_keys

abbrev pub is_server_only : String → Bool
is_server_only key = mem key server_only_state_keys

-- `_strip_browser_private_keys` of an object
unfoldable pub strip_browser_private_keys : Fields → Fields
unfolding strip_keys browser_private_keys
strip_browser_private_keys payload = strip_fields is_browser_private payload

unfoldable pub sanitize_ag_ui_state : Fields → Fields
unfolding strip_keys server_only_state_keys
sanitize_ag_ui_state state = strip_fields is_server_only state

abbrev put_present : String → Option String → Fields → Fields
put_present key none payload = payload
put_present key (some s) payload = put key (str s) payload

unfoldable pub thread_state_payload :
    Fields → String → String → Option String → Option String → Option String → Fields
unfolding sanitize_ag_ui_state put
thread_state_payload state user_id session_id tenant_id token_ref active_workflow_id =
    put_present "active_workflow_id" active_workflow_id (
      put_present "token_ref" token_ref (
        put_present "tenant_id" tenant_id (
          put "session_id" (str session_id)
            (put "user_id" (str user_id) (sanitize_ag_ui_state state)))))

intent_dump : ToolIntent → Fields
intent_dump i = field "agent_name" (str i.agent_name) (
    field "mcp_server" (str i.mcp_server) (
      field "tool_name" (str i.tool_name) (
        field "arguments" (obj i.arguments)
          (field "reason" (nullable i.reason) (field "metadata_ref" (str i.metadata_ref) end)))))

intent_dumps : List ToolIntent → Items
unfolding intent_dump
intent_dumps [] = nil
intent_dumps (i ∷ is) = cons (obj (intent_dump i)) (intent_dumps is)

step_dump : WorkflowStep → Fields
step_dump s = field "step_id" (str s.step_id) (
    field "target_agent" (str s.target_agent) (
      field "action" (str s.action) (
        field "input_model_type" (str s.input_model_type) (
          field "input_payload_json" (str s.input_payload_json) (
            field "required_scopes" (arr (strings s.required_scopes)) (
              field "downstream_audience" (nullable s.downstream_audience) (
                field "operation_type" (str (operation_text s.operation_type)) (
                  field "blast_radius" (str (blast_text s.blast_radius)) (
                    field "hitl_description" (str s.hitl_description)
                      (field "mutates_external_state" (bool s.mutates_external_state) end))))))))))

step_dumps : List WorkflowStep → Items
unfolding step_dump
step_dumps [] = nil
step_dumps (s ∷ ss) = cons (obj (step_dump s)) (step_dumps ss)

policy_dump : WorkflowPolicyDecision → Fields
policy_dump d = field "requires_hitl" (bool d.requires_hitl) (
    field "blast_radius" (str (blast_text d.blast_radius)) (
      field "human_description" (str d.human_description) (
        field "required_scopes" (arr (strings d.required_scopes))
          (field "denied_reason" (nullable d.denied_reason) end))))

unfoldable pub objects : List Fields → Items
objects [] = nil
objects (fs ∷ fss) = cons (obj fs) (objects fss)

module _ (lib : Digests) where
  abbrev optional_instant : Option ℕ → Json
  optional_instant none = null
  optional_instant (some t) = str (lib.isoformat t)

  plan_dump : WorkflowPlan → Fields
  unfolding step_dumps
  plan_dump p = field "workflow_id" (str p.workflow_id) (
      field "user_id" (str p.user_id) (
        field "session_id" (str p.session_id) (
          field "tenant_id" (nullable p.tenant_id) (
            field "created_at" (str (lib.isoformat p.created_at))
              (field "steps" (arr (step_dumps p.steps)) end)))))

  abbrev approved_dump : Option ApprovedWorkflow → Json
  approved_dump none = null
  approved_dump (some a) = obj (
      field "workflow_id" (str a.workflow_id) (
        field "approval_id" (str a.approval_id) (
          field "plan_hash" (str a.plan_hash) (
            field "approved_at" (str (lib.isoformat a.approved_at)) (
              field "approved_by_user_id" (str a.approved_by_user_id) (
                field "approved_scopes" (arr (strings a.approved_scopes))
                  (field "expires_at" (optional_instant a.expires_at) end)))))))

  -- `workflow.model_dump(mode="json")`
  unfoldable pub workflow_dump : WorkflowRecord → Fields
  unfolding plan_dump intent_dumps policy_dump objects
  workflow_dump w = field "workflow_id" (str w.workflow_id) (
      field "thread_id" (nullable w.thread_id) (
        field "session_id" (str w.session_id) (
          field "user_id" (str w.user_id) (
            field "tenant_id" (nullable w.tenant_id) (
              field "status" (str (status_text w.status)) (
                field "proposal" (obj (plan_dump w.proposal)) (
                  field "plan_hash" (str w.plan_hash) (
                    field "tool_intents" (arr (intent_dumps w.tool_intents)) (
                      field "policy" (obj (policy_dump w.policy)) (
                        field "token_ref" (nullable w.token_ref) (
                          field "approved_workflow" (approved_dump w.approved_workflow) (
                            field "egress_results" (arr (objects w.egress_results)) (
                              field "created_at" (str (lib.isoformat w.created_at)) end)))))))))))))

  unfoldable pub public_workflow_payload : WorkflowRecord → Fields
  unfolding workflow_dump strip_browser_private_keys
  public_workflow_payload workflow = strip_browser_private_keys (workflow_dump workflow)
