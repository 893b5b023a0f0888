-- ===== src/AgentService/Planning/Planned.antt =====
-- services/agent_service/agent_service/app.py: what `POST /workflows/plan` stores.
use user_delegated_auth_serv.Base.{
  String, ◌⊎◌, is_empty, Exception, ◌≡◌, true, Option, some, List, Result, ok, err, if◌then◌else◌,
}
use user_delegated_auth_serv.WorkflowCore.Models.{ToolIntent}
use user_delegated_auth_serv.WorkflowCore.Grants.{plan_hash}
use user_delegated_auth_serv.SessionState.InternalAuth.{
  TrustedSessionContext, verify_session_context,
}
use user_delegated_auth_serv.EgressGateway.Handler.{internal_auth_secret}
use user_delegated_auth_serv.AgentService.Models.{
  PlanWorkflowRequest, WorkflowRecord, WorkflowStatus,
}
use user_delegated_auth_serv.AgentService.Orchestration.{DispatchResult, dispatch}
use user_delegated_auth_serv.AgentService.Store as Stores
use user_delegated_auth_serv.AgentService.Store.{present, same_identity}
use user_delegated_auth_serv.AgentService.World.{World, Outside}
use user_delegated_auth_serv.AgentService.Planning.Snapshot.{HasUnkept}
use user_delegated_auth_serv.AgentService.Planning.{Runtime, propose, with_trusted_context}

module _ (outside : Outside) (runtime : Runtime) where
  -- A workflow that was planned for a request and some intents: it is the request's owner's, holds what the
  -- dispatcher made of the intents, waits for an approval exactly when the policy asks for one, and is stored.
  pub record IsPlanned (request : PlanWorkflowRequest) (tool_intents : List ToolIntent)
      (workflow : WorkflowRecord) (store : Stores.Store) : Type 0 where
    pub user : workflow.user_id ≡ request.user_id
    pub session : workflow.session_id ≡ request.session_id
    pub tenant : workflow.tenant_id ≡ request.tenant_id
    pub dispatched : DispatchResult
    pub accepted : dispatch request tool_intents ≡ ok dispatched
    pub intents : workflow.tool_intents ≡ dispatched.tool_intents
    pub steps : workflow.proposal.steps ≡ dispatched.steps
    pub policy : workflow.policy ≡ dispatched.policy
    pub hash : workflow.plan_hash ≡ plan_hash outside.lib workflow.proposal
    pub gate : workflow.status ≡ (
        if workflow.policy.requires_hitl
        then WorkflowStatus.awaiting_approval
        else WorkflowStatus.ready)
    pub stored :
        Stores.get_workflow store workflow.workflow_id workflow.user_id workflow.session_id
          workflow.tenant_id
        ≡ some workflow

  -- Planning raises only what the dispatcher does, or for a request without a user or a session, or, once
  -- the workflow is stored, for messages that cannot be kept.
  abbrev pub Planned :
      PlanWorkflowRequest → List ToolIntent → Result WorkflowRecord × World → Type 0
  Planned request tool_intents (err e, w) =
      (dispatch request tool_intents ≡ err e)
      ⊎ (((is_empty request.user_id ≡ true) ⊎ (is_empty request.session_id ≡ true))
          ⊎ (HasUnkept outside.loads request w.store e
              × (workflow : WorkflowRecord) × IsPlanned request tool_intents workflow w.store))
  Planned request tool_intents (ok workflow, w) = IsPlanned request tool_intents workflow w.store

module _ (outside : Outside) (runtime : Runtime) (encoded_context signature : Option String)
    (request : PlanWorkflowRequest) (w : World) where
  abbrev verified : Result TrustedSessionContext
  verified =
      verify_session_context outside.lib outside.codec (outside.clock w.readings) encoded_context
        signature (internal_auth_secret outside.env)

  -- The request is planned as that of the trusted context, for what the model proposes to it.
  pub record IsPlannedFor (out : Result WorkflowRecord × World) : Type 0 where
    pub context : TrustedSessionContext
    pub trusted : verified ≡ ok context
    pub tool_intents : List ToolIntent
    pub proposed : propose outside runtime (with_trusted_context context request) ≡ ok tool_intents
    pub planned : Planned outside runtime (with_trusted_context context request) tool_intents out

  -- The headers are not trusted, or no intents are proposed.
  abbrev pub IsTurnedAway : Result WorkflowRecord × World → Type 0
  IsTurnedAway out =
      (out.1.store ≡ w.store)
      × (e : Exception) × ((verified ≡ err e)
          ⊎ ((context : TrustedSessionContext) × (verified ≡ ok context)
              × (propose outside runtime (with_trusted_context context request) ≡ err e)))
