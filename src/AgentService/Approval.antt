-- ===== src/AgentService/Approval.antt =====
-- services/agent_service/agent_service/app.py: the handler of `POST /workflows/{workflow_id}/approve`.
pub mod Settled
pub mod Gate
pub mod Once
use Prim.Native.String.{◌++◌}
use user_delegated_auth_serv.Base.{
  ℕ, ◌+◌, ◌*◌, String, Bool, true, false, ◌==◌, Option, none, some, List, [], ◌∷◌, Result, ok, err,
  Exception, http_exception, http_status_error, http_error, workflow_execution_error,
  internal_auth_error, class_name_of, decimal, if◌then◌else◌,
}
use user_delegated_auth_serv.Externals.{Digests}
use user_delegated_auth_serv.Json.{bool, str, arr, Fields, end, field, strings, nullable}
use user_delegated_auth_serv.WorkflowCore.Models.{ApprovedWorkflow}
use user_delegated_auth_serv.WorkflowCore.Validation.{new_approved_workflow}
use user_delegated_auth_serv.TokenBroker.Models.{WorkflowTokenExchangeResponse}
use user_delegated_auth_serv.SessionState.InternalAuth.{
  TrustedSessionContext, verify_session_context,
}
use user_delegated_auth_serv.EgressGateway.Handler.{internal_auth_secret}
use user_delegated_auth_serv.AgentService.Models.{
  WorkflowRecord, WorkflowStatus, status_text, WorkflowApprovalRequest, WorkflowApprovalResponse,
}
use user_delegated_auth_serv.AgentService.Store.{get_workflow, get_auth_context, present}
use user_delegated_auth_serv.AgentService.World.{
  World, Outside, Action, pure, raise, lift, continue, ◌>>=◌, ◌>>◌, caught, try_except, read_clock,
  save_workflow, save_thread_workflow_state,
}
use user_delegated_auth_serv.AgentService.Execution.{exchange_obo_token, execute_approved_steps}

-- The statuses in which a workflow is not executed again.
abbrev pub is_closed : WorkflowStatus → Bool
is_closed WorkflowStatus.cancelled = true
is_closed WorkflowStatus.completed = true
is_closed WorkflowStatus.executing = true
is_closed WorkflowStatus.failed = true
is_closed _ = false

unfoldable pub safe_execution_failure_detail : Exception → String
safe_execution_failure_detail (workflow_execution_error text) = text
safe_execution_failure_detail (http_status_error status_code) =
    "workflow execution failed with HTTP " ++ decimal status_code
safe_execution_failure_detail (http_error class_name) =
    "workflow execution transport failed: " ++ class_name
safe_execution_failure_detail (http_exception status_code detail) = detail
safe_execution_failure_detail e = "workflow execution failed: " ++ class_name_of e

-- An `HTTPException` is raised again, and any other becomes a 502.
abbrev as_http : Exception → Exception
as_http (http_exception status_code detail) = http_exception status_code detail
as_http e = http_exception 502 (safe_execution_failure_detail e)

abbrev failure_fields : Exception → Fields
failure_fields e =
    field "error_type" (str (class_name_of e))
      (field "message" (str (safe_execution_failure_detail e)) (field "status" (str "failed") end))

abbrev or_404 : Option WorkflowRecord → Result WorkflowRecord
or_404 none = err (http_exception 404 "workflow not found")
or_404 (some workflow) = ok workflow

abbrev with_status : WorkflowStatus → WorkflowRecord → WorkflowRecord
with_status s workflow = record workflow { status = s }

abbrev executing_with : ApprovedWorkflow → WorkflowRecord → WorkflowRecord
executing_with approval workflow = record workflow {
  status = WorkflowStatus.executing;
  approved_workflow = some approval;
}

abbrev completed_with : List Fields → WorkflowRecord → WorkflowRecord
completed_with results workflow = record workflow {
  status = WorkflowStatus.completed;
  egress_results = results;
}

abbrev failed_with : Exception → WorkflowRecord → WorkflowRecord
failed_with e workflow = record workflow {
  status = WorkflowStatus.failed;
  egress_results = failure_fields e ∷ [];
}

abbrev not_attempted : WorkflowStatus → Fields
not_attempted s =
    field "attempted" (bool false) (field "reason" (str ("workflow already " ++ status_text s)) end)

module _ (outside : Outside) where
  open outside use {env, lib}

  abbrev pub as_401 : Exception → Exception
  as_401 (internal_auth_error text) = http_exception 401 text
  as_401 e = e

  abbrev pub or_401 : Result TrustedSessionContext → Result TrustedSessionContext
  or_401 (ok context) = ok context
  or_401 (err e) = err (as_401 e)

  -- `_trusted_context_from_request`, of the request's two headers
  unfoldable pub trusted_context : Option String → Option String → Action TrustedSessionContext
  unfolding verify_session_context internal_auth_secret
  trusted_context encoded_context signature = do
    now ← read_clock outside
    lift (
        or_401 (
          verify_session_context lib outside.codec now encoded_context signature
            (internal_auth_secret env)))

  unfoldable pub require_workflow : String → TrustedSessionContext → Action WorkflowRecord
  unfolding get_workflow
  require_workflow workflow_id context w = (
    or_404 (get_workflow w.store workflow_id context.user_id context.session_id context.tenant_id),
    w,
  )

  -- The answer to a workflow that is closed.
  abbrev answer_closed : WorkflowRecord → Action WorkflowApprovalResponse
  answer_closed workflow = do
    save_thread_workflow_state outside workflow
    pure (record { workflow = workflow; token_exchange = not_attempted workflow.status })

  abbrev cancel : WorkflowRecord → Action WorkflowApprovalResponse
  cancel workflow = do
    cancelled ← save_workflow outside (with_status WorkflowStatus.cancelled workflow)
    save_thread_workflow_state outside cancelled
    pure (record { workflow = cancelled; token_exchange = end })

  -- `_mark_workflow_failed`, and the exception that is raised after it.
  unfoldable pub mark_workflow_failed : WorkflowRecord → Exception → Action WorkflowApprovalResponse
  unfolding save_workflow save_thread_workflow_state safe_execution_failure_detail
  mark_workflow_failed executing e = do
    failed ← save_workflow outside (failed_with e executing)
    save_thread_workflow_state outside failed
    raise (as_http e)

  abbrev exchange_fields : WorkflowTokenExchangeResponse → Fields
  exchange_fields token = field "attempted" (bool true) (
      field "audience" (nullable token.audience) (
        field "scopes" (arr (strings token.scopes))
          (field "expires_at" (str (outside.isoformat token.expires_at)) end)))

  abbrev complete :
      WorkflowRecord → WorkflowTokenExchangeResponse × List Fields → Action WorkflowApprovalResponse
  complete executing (token, results) = do
    completed ← save_workflow outside (completed_with results executing)
    save_thread_workflow_state outside completed
    pure (record { workflow = completed; token_exchange = exchange_fields token })

  -- The body of the `try`.
  abbrev run :
      WorkflowRecord
      → ApprovedWorkflow
      → String
      → Action (WorkflowTokenExchangeResponse × List Fields)
  run executing approval auth_context_ref = do
    token ← exchange_obo_token outside executing approval auth_context_ref
    results ← execute_approved_steps outside executing approval token
    pure (token, results)

  -- What follows the `try`, or its `except`.
  abbrev settle :
      WorkflowRecord
      → Result (WorkflowTokenExchangeResponse × List Fields) × World
      → Result WorkflowApprovalResponse × World
  settle executing (ok results, w) = complete executing results w
  settle executing (err e, w) = mark_workflow_failed executing e w

  unfoldable pub execute :
      WorkflowRecord → ApprovedWorkflow → String → Action WorkflowApprovalResponse
  unfolding exchange_obo_token execute_approved_steps mark_workflow_failed save_workflow
      save_thread_workflow_state
  execute workflow approval auth_context_ref = do
    executing ← save_workflow outside (executing_with approval workflow)
    λ w. settle executing (run executing approval auth_context_ref w)

  abbrev or_400 : String → Option String → Result String
  or_400 text none = err (http_exception 400 text)
  or_400 text (some s) = ok s

  -- The credential that is registered for the workflow's token reference.
  unfoldable pub credential_of : WorkflowRecord → Action String
  unfolding get_auth_context
  credential_of workflow = do
    token_ref ←
        lift (or_400 "token_ref is required for OBO token exchange" (present workflow.token_ref))
    λ w. (
      or_400 "auth context is not registered for token_ref" (
          get_auth_context w.store workflow.user_id workflow.session_id token_ref
            workflow.tenant_id),
      w,
    )

  abbrev approval_of : TrustedSessionContext → WorkflowRecord → ℕ → ℕ → ApprovedWorkflow
  approval_of context workflow approved_at now = record {
    workflow_id = workflow.workflow_id;
    approval_id = "approval-" ++ outside.uuid4_hex;
    plan_hash = workflow.plan_hash;
    approved_at = approved_at;
    approved_by_user_id = context.user_id;
    approved_scopes = workflow.policy.required_scopes;
    expires_at = some (now + 15 * 60 * 1000000);
  }

  abbrev approve_with :
      TrustedSessionContext → WorkflowRecord → String → Action WorkflowApprovalResponse
  approve_with context workflow auth_context_ref = do
    now ← read_clock outside
    approved_at ← read_clock outside
    approval ← lift (new_approved_workflow (approval_of context workflow approved_at now))
    execute workflow approval auth_context_ref

  unfoldable pub approve : TrustedSessionContext → WorkflowRecord → Action WorkflowApprovalResponse
  unfolding credential_of new_approved_workflow execute
  approve context workflow = do
    auth_context_ref ← credential_of workflow
    approve_with context workflow auth_context_ref

  abbrev decide :
      TrustedSessionContext
      → WorkflowApprovalRequest
      → WorkflowRecord
      → Action WorkflowApprovalResponse
  decide context request workflow =
      if request.plan_hash == workflow.plan_hash
      then if is_closed workflow.status
        then answer_closed workflow
        else if request.approved
        then approve context workflow
        else cancel workflow
      else raise (http_exception 409 "plan_hash does not match workflow manifest")

  unfoldable pub approve_workflow :
      String
      → Option String
      → Option String
      → WorkflowApprovalRequest
      → Action WorkflowApprovalResponse
  unfolding trusted_context require_workflow approve save_workflow save_thread_workflow_state
  approve_workflow workflow_id encoded_context signature request = do
    context ← trusted_context encoded_context signature
    workflow ← require_workflow workflow_id context
    decide context request workflow
