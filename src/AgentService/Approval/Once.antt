-- ===== src/AgentService/Approval/Once.antt =====
-- A workflow is executed at most once.
use user_delegated_auth_serv.Base.{
  ℕ, String, ◌≡◌, refl, sym, ◌∙◌, ap, ◌⊎◌, inl, inr, true, false, Option, some, Result, ok, err,
}
use user_delegated_auth_serv.SessionState.InternalAuth.{
  TrustedSessionContext, verify_session_context,
}
use user_delegated_auth_serv.EgressGateway.Handler.{internal_auth_secret}
use user_delegated_auth_serv.AgentService.Models.{
  WorkflowRecord, WorkflowApprovalRequest, WorkflowApprovalResponse,
}
use user_delegated_auth_serv.AgentService.Store.{Store, SessionScope, get_workflow}
use user_delegated_auth_serv.AgentService.Store.Isolation.{IsWellKeyed}
use user_delegated_auth_serv.AgentService.World.{World, Outside}
use user_delegated_auth_serv.AgentService.Approval.{is_closed, approve_workflow}
use user_delegated_auth_serv.AgentService.Approval.Settled.{IsQuiet, settled_status}
use user_delegated_auth_serv.AgentService.Approval.Gate.{
  IsExecuted, IsRun, IsEither, IsGated, approve_workflow-IsGated, approve_workflow-IsEither,
}

-- Whose workflows a context reaches.
abbrev pub scope_of : TrustedSessionContext → SessionScope
scope_of c = record { user_id = c.user_id; session_id = c.session_id; tenant_id = c.tenant_id }

abbrev find_in : Store → String → SessionScope → Option WorkflowRecord
find_in s workflow_id scope =
    get_workflow s workflow_id scope.user_id scope.session_id scope.tenant_id

module _ (outside : Outside) where
  -- The two headers of a request.
  abbrev pub Headers : Type 0
  Headers = Option String × Option String

  abbrev pub verify_at : ℕ → Headers → Result TrustedSessionContext
  verify_at now h =
      verify_session_context outside.lib outside.codec now h.0 h.1
        (internal_auth_secret outside.env)

  -- Whenever they are trusted, the headers stand for the same user, session and tenant.
  abbrev pub AreSameSession : Headers → Headers → Type 0
  AreSameSession h k =
      (now later : ℕ) (c d : TrustedSessionContext)
      → verify_at now h ≡ ok c
      → verify_at later k ≡ ok d
      → scope_of c ≡ scope_of d

  closed_of_settled : {A : Type 0} (r : Result A) → is_closed (settled_status outside r) ≡ true
  closed_of_settled (ok a) = refl
  closed_of_settled (err e) = refl

  module _ (workflow_id : String) (h k : Headers) (request again : WorkflowApprovalRequest)
      (w : World) where
    abbrev first : Result WorkflowApprovalResponse × World
    first = approve_workflow outside workflow_id h.0 h.1 request w

    abbrev second : World → Result WorkflowApprovalResponse × World
    second v = approve_workflow outside workflow_id k.0 k.1 again v

    not_twice :
        AreSameSession h k
        → IsExecuted outside workflow_id h.0 h.1 request w first
        → IsRun outside workflow_id k.0 k.1 again first.1 (second first.1)
        → ⊥
    not_twice same a b =
        let scopes = same _ _ a.context b.context a.trusted b.trusted in
        let found : some b.workflow ≡ some a.stored =
          sym b.found ∙ sym (ap (find_in (first.1).store workflow_id) scopes) ∙ a.kept in
        let status : b.workflow.status ≡ settled_status outside first.0 =
          (let one : b.workflow ≡ a.stored = cc in ap (λ r. r.status) one ∙ a.status) in
        let closed : is_closed b.workflow.status ≡ true =
          ap is_closed status ∙ closed_of_settled first.0 in
        let opened : is_closed b.workflow.status ≡ false = b.allowed.open_before in cc

    once_of :
        AreSameSession h k
        → IsGated outside workflow_id h.0 h.1 request w first
        → IsEither outside workflow_id k.0 k.1 again first.1 (second first.1)
        → IsQuiet w first.1 ⊎ IsQuiet first.1 ((second first.1).1)
    once_of same (inl q) e = inl q
    once_of same (inr a) (inl q) = inr q
    once_of same (inr a) (inr b) = absurd (not_twice same a b)

    -- Of two approvals of a workflow in one session, one after the other, with whatever headers and
    -- bodies, on a store whose records stand under their own identity, at most one sends anything to
    -- Auth0 or to the egress gateway.
    pub approve_workflow-once :
        AreSameSession h k
        → IsWellKeyed w.store
        → IsQuiet w first.1 ⊎ IsQuiet first.1 ((second first.1).1)
    approve_workflow-once same keyed =
        once_of same (approve_workflow-IsGated outside workflow_id h.0 h.1 request w keyed)
          (approve_workflow-IsEither outside workflow_id k.0 k.1 again first.1)
