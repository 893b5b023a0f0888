-- ===== src/AgentService/Planning.antt =====
-- services/agent_service/agent_service/app.py: the handlers of `POST /workflows/plan` and
-- `GET /workflows/{workflow_id}`.
pub mod Snapshot
pub mod Planned
use Prim.Native.String.{◌++◌}
use user_delegated_auth_serv.Base.{
  sorted_set, ℕ, ◌+◌, String, true, Option, none, some, List, [], ◌∷◌, map, Result, ok, err,
  is_empty, if◌then◌else◌, Exception,
}
use user_delegated_auth_serv.Externals.{Digests}
use user_delegated_auth_serv.Json.{str, arr, obj, strings, nullable, Fields, end, field, put}
use user_delegated_auth_serv.Json.Dumps.{dumps}
use user_delegated_auth_serv.SessionState.InternalAuth.{TrustedSessionContext}
use user_delegated_auth_serv.WorkflowCore.Models.{WorkflowPlan, ToolIntent, WorkflowStep}
use user_delegated_auth_serv.WorkflowCore.Validation.{new_workflow_plan}
use user_delegated_auth_serv.WorkflowCore.Grants.{plan_hash}
use user_delegated_auth_serv.AgentService.Models.{
  PlanWorkflowRequest, SanitizedWorkflowContext, from_request, SessionRecord, WorkflowRecord,
  WorkflowStatus, ThreadRecord,
}
use user_delegated_auth_serv.AgentService.Orchestration.{
  DispatchResult, dispatch, dedupe_intents, available_tool_names,
}
use user_delegated_auth_serv.AgentService.Payloads.{thread_state_payload, public_workflow_payload}
use user_delegated_auth_serv.AgentService.Messages.{Narration, restorable_thread_messages}
use user_delegated_auth_serv.AgentService.Store as Stores
use user_delegated_auth_serv.AgentService.Store.{prefix, present}
use user_delegated_auth_serv.AgentService.World.{
  World, Outside, Action, continue, ◌>>=◌, ◌>>◌, lift, pure, read_clock, save_workflow,
}
use user_delegated_auth_serv.AgentService.Approval.{trusted_context, require_workflow}

abbrev pub no_narration : Narration
no_narration = record { message_id = none; text = none; run_id = none }

-- What the provider makes of a context, the tools allowed and the tools there are; and the
-- successive `uuid4().hex` of a snapshot that is made in a world.
pub record Runtime : Type 0 where
  pub propose :
      SanitizedWorkflowContext → Option (List String) → List String → Result (List ToolIntent)
  pub uuid4_hex : World → ℕ → String

-- `_request_with_trusted_context`, of a request to plan
unfoldable pub with_trusted_context :
    TrustedSessionContext → PlanWorkflowRequest → PlanWorkflowRequest
with_trusted_context context request = record request {
  allowed_tools = context.allowed_tools;
  auth_context_ref = none;
  session_id = context.session_id;
  tenant_id = context.tenant_id;
  token_ref = context.token_ref;
  token_scopes = context.token_scopes;
  user_id = context.user_id;
}

unfoldable allowed_tool_names : Option (List String) → Option (List String)
unfolding sorted_set
allowed_tool_names none = none
allowed_tool_names (some allowed_tools) = some (sorted_set allowed_tools)

-- The request's messages or, if it has none, those of the thread before.
abbrev pub messages_or : List Fields → Option ThreadRecord → List Fields
messages_or [] none = []
messages_or [] (some existing) = existing.messages
messages_or (m ∷ ms) existing = m ∷ ms

-- `_workflow_id`
unfoldable pub workflow_id_of : Digests → PlanWorkflowRequest → List String → String
unfolding prefix
workflow_id_of lib request tool_names =
    "wf-"
    ++ prefix 16 (
        lib.sha256_hexdigest (
          dumps true (
            obj (
              field "query" (str request.query) (
                field "session_id" (str request.session_id) (
                  field "tenant_id" (nullable request.tenant_id) (
                    field "tool_names" (arr (strings tool_names))
                      (field "user_id" (str request.user_id) end))))))))

module _ (outside : Outside) (runtime : Runtime) where
  abbrev upsert_session : PlanWorkflowRequest → Action SessionRecord
  upsert_session request w =
      let out = Stores.upsert_session outside.lib (outside.clock w.readings) request w.store in
      (ok out.0, record w { store = out.1; readings = w.readings + 1 })

  abbrev plan_of : PlanWorkflowRequest → DispatchResult → ℕ → WorkflowPlan
  plan_of request dispatched now = record {
    workflow_id =
        workflow_id_of outside.lib request
          (map (λ intent. intent.tool_name) dispatched.tool_intents);
    user_id = request.user_id;
    session_id = request.session_id;
    tenant_id = request.tenant_id;
    created_at = now;
    steps = dispatched.steps;
  }

  abbrev pub workflow_of :
      PlanWorkflowRequest → DispatchResult → Option String → WorkflowPlan → ℕ → WorkflowRecord
  workflow_of request dispatched token_ref proposal now = record {
    workflow_id = proposal.workflow_id;
    thread_id = request.thread_id;
    session_id = request.session_id;
    user_id = request.user_id;
    tenant_id = request.tenant_id;
    status =
        if dispatched.policy.requires_hitl
        then WorkflowStatus.awaiting_approval
        else WorkflowStatus.ready;
    proposal = proposal;
    plan_hash = plan_hash outside.lib proposal;
    tool_intents = dispatched.tool_intents;
    policy = dispatched.policy;
    token_ref = token_ref;
    approved_workflow = none;
    egress_results = [];
    created_at = now;
  }

  abbrev restored :
      PlanWorkflowRequest → WorkflowRecord → Narration → Option ThreadRecord → Action (List Fields)
  restored request workflow narration existing w = (
    restorable_thread_messages outside.loads (runtime.uuid4_hex w)
        (messages_or request.messages existing) workflow narration,
    w,
  )

  abbrev snapshot_at :
      PlanWorkflowRequest
      → WorkflowRecord
      → Option String
      → String
      → List Fields
      → ℕ
      → ℕ
      → ThreadRecord
  snapshot_at request workflow token_ref thread_id messages created_at updated_at = record {
    thread_id = thread_id;
    user_id = request.user_id;
    session_id = request.session_id;
    tenant_id = request.tenant_id;
    messages = messages;
    state = put "workflow" (obj (public_workflow_payload outside.lib workflow)) (
        thread_state_payload request.state request.user_id request.session_id request.tenant_id
          token_ref (some workflow.workflow_id));
    title = none;
    token_ref = token_ref;
    active_workflow_id = some workflow.workflow_id;
    created_at = created_at;
    updated_at = updated_at;
  }

  -- `utc_now() if existing is None else existing.created_at`
  abbrev created_or_now : Option ThreadRecord → Action ℕ
  created_or_now none = read_clock outside
  created_or_now (some existing) = pure existing.created_at

  abbrev save_thread : ThreadRecord → Action (Unit {0})
  save_thread thread w = (ok tt, record w { store = Stores.save_thread thread w.store })

  abbrev save_messages :
      PlanWorkflowRequest
      → WorkflowRecord
      → Option String
      → String
      → Option ThreadRecord
      → List Fields
      → Action (Unit {0})
  save_messages request workflow token_ref thread_id existing messages = do
    created_at ← created_or_now existing
    updated_at ← read_clock outside
    save_thread (snapshot_at request workflow token_ref thread_id messages created_at updated_at)

  abbrev save_snapshot :
      PlanWorkflowRequest
      → WorkflowRecord
      → Option String
      → Narration
      → String
      → Option ThreadRecord
      → Action (Unit {0})
  save_snapshot request workflow token_ref narration thread_id existing = do
    messages ← restored request workflow narration existing
    save_messages request workflow token_ref thread_id existing messages

  abbrev snapshot_found :
      PlanWorkflowRequest
      → WorkflowRecord
      → Option String
      → Narration
      → Option String
      → Action (Unit {0})
  snapshot_found request workflow token_ref narration none w = (ok tt, w)
  snapshot_found request workflow token_ref narration (some thread_id) w =
      save_snapshot request workflow token_ref narration thread_id
        (Stores.get_thread w.store thread_id request.user_id request.session_id request.tenant_id) w

  -- `_save_thread_snapshot_for_workflow`, for a thread's id that is not empty.
  unfoldable pub save_thread_snapshot_for_workflow :
      PlanWorkflowRequest → WorkflowRecord → Option String → Narration → Action (Unit {0})
  unfolding thread_state_payload public_workflow_payload put restorable_thread_messages
  save_thread_snapshot_for_workflow request workflow token_ref narration =
      snapshot_found request workflow token_ref narration (present request.thread_id)

  -- `_plan_workflow_from_intents`
  unfoldable pub plan_workflow_from_intents :
      PlanWorkflowRequest → List ToolIntent → Narration → Action WorkflowRecord
  unfolding dispatch workflow_id_of new_workflow_plan plan_hash save_workflow
      save_thread_snapshot_for_workflow
  plan_workflow_from_intents request tool_intents narration = do
    session ← upsert_session request
    dispatched ← lift (dispatch request tool_intents)
    plan_time ← read_clock outside
    proposal ← lift (new_workflow_plan (plan_of request dispatched plan_time))
    record_time ← read_clock outside
    workflow ←
        save_workflow outside
          (workflow_of request dispatched session.token_ref proposal record_time)
    save_thread_snapshot_for_workflow request workflow session.token_ref narration
    pure workflow

  abbrev proposed : SanitizedWorkflowContext → Result (List ToolIntent)
  proposed context =
      runtime.propose context (allowed_tool_names context.allowed_tools) available_tool_names

  abbrev deduped : Result (List ToolIntent) → Result (List ToolIntent)
  deduped (ok intents) = ok (dedupe_intents intents)
  deduped (err e) = err e

  abbrev propose_for : Result SanitizedWorkflowContext → Result (List ToolIntent)
  propose_for (ok context) = deduped (proposed context)
  propose_for (err e) = err e

  -- `coordinator.propose`
  unfoldable pub propose : PlanWorkflowRequest → Result (List ToolIntent)
  unfolding from_request dedupe_intents available_tool_names allowed_tool_names
  propose request = propose_for (from_request request)

  unfoldable pub plan_workflow :
      Option String → Option String → PlanWorkflowRequest → Action WorkflowRecord
  unfolding trusted_context with_trusted_context propose plan_workflow_from_intents
  plan_workflow encoded_context signature request = do
    context ← trusted_context outside encoded_context signature
    intents ← lift (propose (with_trusted_context context request))
    plan_workflow_from_intents (with_trusted_context context request) intents no_narration

module _ (outside : Outside) where
  unfoldable pub get_workflow : String → Option String → Option String → Action WorkflowRecord
  unfolding trusted_context require_workflow
  get_workflow workflow_id encoded_context signature = do
    context ← trusted_context outside encoded_context signature
    require_workflow outside workflow_id context
