-- ===== src/AgentService/Approval/Gate.antt =====
-- When an approval lets anything leave the service.
use user_delegated_auth_serv.Base.{
  String, ◌≡◌, refl, sym, ◌∙◌, ap, ◌⊎◌, inl, inr, true, false, ◌==◌, eq_iff, Option, none, some,
  Result, ok, err, Bool-cases,
}
use user_delegated_auth_serv.SessionState.InternalAuth.{
  TrustedSessionContext, verify_session_context,
}
use user_delegated_auth_serv.EgressGateway.Handler.{internal_auth_secret}
use user_delegated_auth_serv.AgentService.Models.{
  WorkflowRecord, WorkflowApprovalRequest, WorkflowApprovalResponse,
}
use user_delegated_auth_serv.AgentService.Store as Stores
use user_delegated_auth_serv.AgentService.Store.{Store, get_workflow, workflow_identity}
use user_delegated_auth_serv.AgentService.Store.Isolation.{IsWellKeyed, get_workflow-identity}
use user_delegated_auth_serv.AgentService.World.{World, Outside, continue}
use user_delegated_auth_serv.AgentService.Approval.{
  is_closed, approve, decide, require_workflow, trusted_context, approve_workflow, or_404, or_401,
}
use user_delegated_auth_serv.AgentService.Approval.Settled.{
  IsQuiet, IsSettled, settled_status, approve-IsEither, cancel-IsQuiet, answer_closed-IsQuiet,
}

-- A workflow that may be executed: the request approves it, under its own hash, and it is open.
pub record IsAllowed (request : WorkflowApprovalRequest) (workflow : WorkflowRecord) : Type 0 where
  pub hash : request.plan_hash ≡ workflow.plan_hash
  pub open_before : is_closed workflow.status ≡ false
  pub approved : request.approved ≡ true

module _ (outside : Outside) where
  with-IsAllowed :
      {request : WorkflowApprovalRequest} {workflow : WorkflowRecord} {w : World}
      {out : Result WorkflowApprovalResponse × World}
      → IsAllowed request workflow
      → IsQuiet w out.1 ⊎ IsSettled outside workflow out
      → IsQuiet w out.1 ⊎ (IsAllowed request workflow × IsSettled outside workflow out)
  with-IsAllowed a (inl q) = inl q
  with-IsAllowed a (inr s) = inr (a, s)

  decide-cases :
      (context : TrustedSessionContext) (request : WorkflowApprovalRequest)
      (workflow : WorkflowRecord) (w : World)
      → IsQuiet w ((decide outside context request workflow w).1)
        ⊎ (IsAllowed request workflow
            × IsSettled outside workflow (decide outside context request workflow w))
  decide-cases context request workflow w =
      elim (Bool-cases (request.plan_hash == workflow.plan_hash)) [
        | inr b ↦ inl (rw b (record { posts = refl; exchanges = refl }))
        | inl b ↦ elim (Bool-cases (is_closed workflow.status)) [
          | inl c ↦ inl (rw (b, c) (answer_closed-IsQuiet outside workflow w))
          | inr c ↦ elim (Bool-cases request.approved) [
            | inr d ↦ inl (rw (b, c, d) (cancel-IsQuiet outside workflow w))
            | inl d ↦
                let same : decide outside context request workflow w
                    ≡ approve outside context workflow w =
                  rw (b, c, d) refl in
                rw same (
                  with-IsAllowed
                    (record {
                      hash = (eq_iff request.plan_hash workflow.plan_hash).0 b;
                      open_before = c;
                      approved = d;
                    })
                    (approve-IsEither outside context workflow w))
          ]
        ]
      ]

  module _ (workflow_id : String) (encoded_context signature : Option String)
      (request : WorkflowApprovalRequest) (w : World) where
    abbrev verified : Result TrustedSessionContext
    verified =
        verify_session_context outside.lib outside.codec (outside.clock w.readings) encoded_context
          signature (internal_auth_secret outside.env)

    -- The handler executed a workflow: the signed context is trusted, the workflow is its own, the
    -- request approves it under its hash, and it was open; afterwards the store has it as completed
    -- if the handler answered and as failed if it raised.
    pub record IsExecuted (out : Result WorkflowApprovalResponse × World) : Type 0 where
      pub context : TrustedSessionContext
      pub trusted : verified ≡ ok context
      pub workflow : WorkflowRecord
      pub found :
          get_workflow w.store workflow_id context.user_id context.session_id context.tenant_id
          ≡ some workflow
      pub allowed : IsAllowed request workflow
      pub stored : WorkflowRecord
      pub kept :
          get_workflow
            (out.1).store
            workflow_id
            context.user_id
            context.session_id
            context.tenant_id
          ≡ some stored
      pub status : stored.status ≡ settled_status outside out.0

    -- The handler ran an execution.
    pub record IsRun (out : Result WorkflowApprovalResponse × World) : Type 0 where
      pub context : TrustedSessionContext
      pub trusted : verified ≡ ok context
      pub workflow : WorkflowRecord
      pub found :
          get_workflow w.store workflow_id context.user_id context.session_id context.tenant_id
          ≡ some workflow
      pub allowed : IsAllowed request workflow
      pub settled : IsSettled outside workflow out

    abbrev pub IsGated : Result WorkflowApprovalResponse × World → Type 0
    IsGated out = IsQuiet w out.1 ⊎ IsExecuted out

    or_401-eq-ok :
        (r : Result TrustedSessionContext) (context : TrustedSessionContext)
        → or_401 outside r ≡ ok context
        → r ≡ ok context
    or_401-eq-ok (ok c) context e = e
    or_401-eq-ok (err x) context e = cc

    executed :
        (out : Result WorkflowApprovalResponse × World)
        → IsWellKeyed w.store
        → IsRun out
        → IsExecuted out
    executed out keyed r =
        let context = r.context in
        let id : Stores.Identity = record {
          tenant_id = context.tenant_id;
          user_id = context.user_id;
          session_id = context.session_id;
          item_id = workflow_id;
        } in
        let same : workflow_identity r.workflow ≡ id =
          get_workflow-identity w.store id r.workflow keyed r.found in
        record {
          context = context;
          trusted = r.trusted;
          workflow = r.workflow;
          found = r.found;
          allowed = r.allowed;
          stored = r.settled.stored;
          kept =
              ap (λ i. get_workflow (out.1).store i.item_id i.user_id i.session_id i.tenant_id)
                (sym same)
              ∙ r.settled.found;
          status = r.settled.status;
        }

    abbrev pub IsEither : Result WorkflowApprovalResponse × World → Type 0
    IsEither out = IsQuiet w out.1 ⊎ IsRun out

    IsQuiet-trans : {u v : World} → IsQuiet w u → IsQuiet u v → IsQuiet w v
    IsQuiet-trans q r = record { posts = r.posts ∙ q.posts; exchanges = r.exchanges ∙ q.exchanges }

    gated_of :
        (context : TrustedSessionContext) (workflow : WorkflowRecord) (v : World)
        {out : Result WorkflowApprovalResponse × World}
        → v.store ≡ w.store
        → IsQuiet w v
        → verified ≡ ok context
        → get_workflow v.store workflow_id context.user_id context.session_id context.tenant_id
          ≡ some workflow
        → IsQuiet v out.1 ⊎ (IsAllowed request workflow × IsSettled outside workflow out)
        → IsEither out
    gated_of context workflow v same quiet trusted found (inl q) = inl (IsQuiet-trans quiet q)
    gated_of context workflow v same quiet trusted found (inr (allowed, settled)) =
        let there : get_workflow w.store workflow_id context.user_id context.session_id
              context.tenant_id
            ≡ some workflow =
          ap (λ s. get_workflow s workflow_id context.user_id context.session_id context.tenant_id)
            (sym same)
          ∙ found in
        inr (record {
          context = context;
          trusted = trusted;
          workflow = workflow;
          found = there;
          allowed = allowed;
          settled = settled;
        })

    require_workflow-cases :
        (context : TrustedSessionContext) (v : World) (o : Option WorkflowRecord)
        → v.store ≡ w.store
        → IsQuiet w v
        → verified ≡ ok context
        → get_workflow v.store workflow_id context.user_id context.session_id context.tenant_id ≡ o
        → IsEither (continue (decide outside context request) (or_404 o, v))
    require_workflow-cases context v none same quiet trusted found = inl quiet
    require_workflow-cases context v (some workflow) same quiet trusted found =
        gated_of context workflow v same quiet trusted found
          (decide-cases context request workflow v)

    context-cases :
        (r : Result TrustedSessionContext) (v : World)
        → v.store ≡ w.store
        → IsQuiet w v
        → verified ≡ r
        → IsEither (
            continue
              (λ context w.
                continue
                  (decide outside context request)
                  (require_workflow outside workflow_id context w))
              (or_401 outside r, v))
    unfolding require_workflow
    context-cases (ok context) v same quiet trusted =
        require_workflow-cases context v _ same quiet trusted refl
    context-cases (err e) v same quiet trusted = inl quiet

    pub approve_workflow-IsEither :
        IsEither (approve_workflow outside workflow_id encoded_context signature request w)
    unfolding approve_workflow trusted_context
    approve_workflow-IsEither =
        context-cases verified _ refl (record { posts = refl; exchanges = refl }) refl

    -- On a store whose records stand under their own identity, the handler of an approval either
    -- sends nothing, neither to Auth0 nor to the egress gateway, or it executes an open workflow of
    -- the trusted context that the request approves under its hash, and then the workflow is stored
    -- as completed if the handler answers and as failed if it raises.
    pub approve_workflow-IsGated :
        IsWellKeyed w.store
        → IsGated (approve_workflow outside workflow_id encoded_context signature request w)
    approve_workflow-IsGated keyed = elim approve_workflow-IsEither [
      | inl quiet ↦ inl quiet
      | inr run ↦ inr (executed _ keyed run)
    ]
