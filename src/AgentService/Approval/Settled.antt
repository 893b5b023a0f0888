-- ===== src/AgentService/Approval/Settled.antt =====
-- What the parts of an approval send, and what they leave in the store.
use user_delegated_auth_serv.Base.{
  String, ◌≡◌, refl, ◌∙◌, ap, ◌⊎◌, inl, inr, Option, none, some, List, Result, ok, err,
  Option-cases,
}
use user_delegated_auth_serv.Json.{Fields}
use user_delegated_auth_serv.WorkflowCore.Models.{ApprovedWorkflow}
use user_delegated_auth_serv.TokenBroker.Models.{WorkflowTokenExchangeResponse}
use user_delegated_auth_serv.SessionState.InternalAuth.{TrustedSessionContext}
use user_delegated_auth_serv.AgentService.Models.{
  WorkflowRecord, WorkflowStatus, ThreadRecord, WorkflowApprovalResponse,
}
use user_delegated_auth_serv.AgentService.Store as Stores
use user_delegated_auth_serv.AgentService.Store.{
  present, get_workflow, workflow_identity, same_identity_iff,
}
use user_delegated_auth_serv.AgentService.Store.Isolation.{get_workflow-save_workflow}
use user_delegated_auth_serv.AgentService.World.{
  World, Outside, continue, save_workflow, save_thread_workflow_state, save_found, find_thread,
}
use user_delegated_auth_serv.AgentService.Approval.{
  with_status, failed_with, completed_with, executing_with, mark_workflow_failed, settle, run,
  execute, approve, approve_with, cancel, answer_closed, credential_of,
}

-- Nothing was sent, and the stored workflows are as they were.
pub record IsQuiet (w v : World) : Type 0 where
  pub posts : v.posts ≡ w.posts
  pub exchanges : v.exchanges ≡ w.exchanges

get_workflow-of :
    (s t : Stores.Store) (id : Stores.Identity)
    → s.workflows ≡ t.workflows
    → get_workflow s id.item_id id.user_id id.session_id id.tenant_id
      ≡ get_workflow t id.item_id id.user_id id.session_id id.tenant_id
unfolding get_workflow
get_workflow-of s t id h = rw h refl

module _ (outside : Outside) where
  record SavesThread (w : World) (out : Result (Unit {0}) × World) : Type 0 where
    after : World
    same : out ≡ (ok tt, after)
    quiet : IsQuiet w after
    workflows : after.store.workflows ≡ w.store.workflows

  save_found-SavesThread :
      (workflow : WorkflowRecord) (o : Option ThreadRecord) (w : World)
      → SavesThread w (save_found outside workflow o w)
  save_found-SavesThread workflow none w = record {
    after = w;
    same = refl;
    quiet = record { posts = refl; exchanges = refl };
    workflows = refl;
  }
  save_found-SavesThread workflow (some existing) w = record {
    after = (save_found outside workflow (some existing) w).1;
    same = refl;
    quiet = record { posts = refl; exchanges = refl };
    workflows = unfold Stores.save_thread in refl;
  }

  save_thread_workflow_state-SavesThread :
      (workflow : WorkflowRecord) (w : World)
      → SavesThread w (save_thread_workflow_state outside workflow w)
  unfolding save_thread_workflow_state
  save_thread_workflow_state-SavesThread workflow w =
      save_found-SavesThread workflow (find_thread outside workflow workflow.thread_id w) w

  -- The status that an execution ends with.
  abbrev pub settled_status {ℓ} : {A : Type ℓ} → Result A → WorkflowStatus
  settled_status (ok a) = WorkflowStatus.completed
  settled_status (err e) = WorkflowStatus.failed

  -- What the store has for a workflow after an execution.
  pub record IsSettled (workflow : WorkflowRecord) (out : Result WorkflowApprovalResponse × World)
      : Type 0 where
    pub stored : WorkflowRecord
    pub found :
        get_workflow
          (out.1).store
          workflow.workflow_id
          workflow.user_id
          workflow.session_id
          workflow.tenant_id
        ≡ some stored
    pub status : stored.status ≡ settled_status out.0

  get_workflow-same :
      (s t : Stores.Store) (r : WorkflowRecord)
      → t.workflows ≡ (Stores.save_workflow r s).workflows
      → get_workflow t r.workflow_id r.user_id r.session_id r.tenant_id ≡ some r
  get_workflow-same s t r h =
      get_workflow-of t (Stores.save_workflow r s) (workflow_identity r) h
      ∙ get_workflow-save_workflow r s (workflow_identity r)
      ∙ rw ((same_identity_iff (workflow_identity r) (workflow_identity r)).1 refl) refl

  settle-IsSettled :
      (executing : WorkflowRecord)
      (out : Result (WorkflowTokenExchangeResponse × List Fields) × World)
      → IsSettled executing (settle outside executing out)
  unfolding save_workflow mark_workflow_failed
  settle-IsSettled executing (ok (token, results), w) =
      let done : WorkflowRecord = completed_with results executing in
      let v : World = record w { store = Stores.save_workflow done w.store } in
      let saved = save_thread_workflow_state-SavesThread done v in
      rw saved.same (record {
        stored = done;
        found = get_workflow-same w.store saved.after.store done saved.workflows;
        status = refl;
      })
  settle-IsSettled executing (err e, w) =
      let done : WorkflowRecord = failed_with e executing in
      let v : World = record w { store = Stores.save_workflow done w.store } in
      let saved = save_thread_workflow_state-SavesThread done v in
      rw saved.same (record {
        stored = done;
        found = get_workflow-same w.store saved.after.store done saved.workflows;
        status = refl;
      })

  execute-IsSettled :
      (workflow : WorkflowRecord) (approval : ApprovedWorkflow) (auth_context_ref : String)
      (w : World)
      → IsSettled workflow (execute outside workflow approval auth_context_ref w)
  unfolding execute save_workflow
  execute-IsSettled workflow approval auth_context_ref w =
      let h = settle-IsSettled (executing_with approval workflow) (
        run outside (executing_with approval workflow) approval auth_context_ref
          (save_workflow outside (executing_with approval workflow) w).1) in
      record { stored = h.stored; found = h.found; status = h.status }

  credential_of-world :
      (workflow : WorkflowRecord) (w : World) → (credential_of outside workflow w).1 ≡ w
  unfolding credential_of
  credential_of-world workflow w = elim (Option-cases (present workflow.token_ref)) [
    | inl none_given ↦ rw none_given refl
    | inr (token_ref, given) ↦ rw given refl
  ]

  -- An action that either sent nothing or executed the workflow.
  abbrev pub IsEither : WorkflowRecord → World → Result WorkflowApprovalResponse × World → Type 0
  IsEither workflow w out = IsQuiet w out.1 ⊎ IsSettled workflow out

  after_approval-IsEither :
      (workflow : WorkflowRecord) (auth_context_ref : String) (w : World)
      (approval : Result ApprovedWorkflow) (v : World)
      → IsQuiet w v
      → IsEither workflow w
          (continue (λ a. execute outside workflow a auth_context_ref) (approval, v))
  after_approval-IsEither workflow auth_context_ref w (ok approval) v q =
      inr (execute-IsSettled workflow approval auth_context_ref v)
  after_approval-IsEither workflow auth_context_ref w (err e) v q = inl q

  approve_with-IsEither :
      (context : TrustedSessionContext) (workflow : WorkflowRecord) (auth_context_ref : String)
      (w : World)
      → IsEither workflow w (approve_with outside context workflow auth_context_ref w)
  approve_with-IsEither context workflow auth_context_ref w =
      after_approval-IsEither workflow auth_context_ref w _ _
        (record { posts = refl; exchanges = refl })

  after_credential-IsEither :
      (context : TrustedSessionContext) (workflow : WorkflowRecord) (w : World) (c : Result String)
      → IsEither workflow w (continue (approve_with outside context workflow) (c, w))
  after_credential-IsEither context workflow w (ok auth_context_ref) =
      approve_with-IsEither context workflow auth_context_ref w
  after_credential-IsEither context workflow w (err e) =
      inl (record { posts = refl; exchanges = refl })

  pub approve-IsEither :
      (context : TrustedSessionContext) (workflow : WorkflowRecord) (w : World)
      → IsEither workflow w (approve outside context workflow w)
  unfolding approve
  approve-IsEither context workflow w =
      let out = credential_of outside workflow w in
      let same : out ≡ (out.0, w) = ap (λ v. (out.0, v)) (credential_of-world workflow w) in
      rw same (after_credential-IsEither context workflow w out.0)

  pub cancel-IsQuiet :
      (workflow : WorkflowRecord) (w : World) → IsQuiet w ((cancel outside workflow w).1)
  unfolding save_workflow
  cancel-IsQuiet workflow w =
      let cancelled : WorkflowRecord = with_status WorkflowStatus.cancelled workflow in
      let saved =
        save_thread_workflow_state-SavesThread cancelled (save_workflow outside cancelled w).1 in
      rw saved.same (record { posts = saved.quiet.posts; exchanges = saved.quiet.exchanges })

  pub answer_closed-IsQuiet :
      (workflow : WorkflowRecord) (w : World) → IsQuiet w ((answer_closed outside workflow w).1)
  answer_closed-IsQuiet workflow w =
      let saved = save_thread_workflow_state-SavesThread workflow w in rw saved.same saved.quiet
