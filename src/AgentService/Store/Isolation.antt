-- ===== src/AgentService/Store/Isolation.antt =====
-- The process-local store keeps the records of each identity apart.
use user_delegated_auth_serv.Base.{
  ℕ, String, ◌≡◌, refl, Option, none, some, [], ◌∷◌, arith, Eq, Table, lookup, insert,
  lookup-insert, All, if◌then◌else◌,
}
use user_delegated_auth_serv.Externals.{Digests}
use user_delegated_auth_serv.AgentService.Models.{
  PlanWorkflowRequest, SessionRecord, TokenRegistryRecord, WorkflowRecord, ThreadRecord,
}
use user_delegated_auth_serv.AgentService.Store.{
  Identity, Store, empty, identity_eq, scope_eq, session_scope, workflow_identity, token_identity,
  thread_identity, save_workflow, get_workflow, save_thread, get_thread, register_auth_context,
  get_auth_context, upsert_session, registered, session_record_for_request, same_identity,
}

-- Each record stands under the key that is made of its own fields.
abbrev pub IsKeyed {ℓ κ} : {K : Type ℓ} {V : Type κ} → (V → K) → Table K V → Type ℓ
IsKeyed key_of t = All (λ e. e.0 ≡ key_of e.1) t

module _ {ℓ κ} {K : Type ℓ} {V : Type κ} ⦃e : Eq K⦄ (key_of : V → K) where
  insert-IsKeyed :
      (v : V) (t : Table K V) → IsKeyed key_of t → IsKeyed key_of (insert (key_of v) v t)
  unfolding insert
  insert-IsKeyed v [] h = (refl, tt)
  insert-IsKeyed v ((k, w) ∷ t) h = ground (arith, insert-IsKeyed v t h.1)

  lookup-IsKeyed :
      (key : K) (t : Table K V) (v : V) → IsKeyed key_of t → lookup key t ≡ some v → key_of v ≡ key
  unfolding lookup
  lookup-IsKeyed key [] v h g = cc
  lookup-IsKeyed key ((k, w) ∷ t) v h g =
      ground (arith, lookup-IsKeyed key t v h.1, e.beq_iff k key, h.0)

-- A store whose records all stand under their own identity.
pub record IsWellKeyed (s : Store) : Type 0 where
  pub sessions : IsKeyed session_scope s.sessions
  pub workflows : IsKeyed workflow_identity s.workflows
  pub tokens : IsKeyed token_identity s.tokens
  pub threads : IsKeyed thread_identity s.threads

-- One call of the store that changes it.
pub data Step (lib : Digests) : Store → Store → Type 0 where
  saved_workflow : (r : WorkflowRecord) (s : Store) → Step lib s (save_workflow r s)
  saved_thread : (r : ThreadRecord) (s : Store) → Step lib s (save_thread r s)
  registered_context :
      (r : TokenRegistryRecord) (s : Store) → Step lib s (register_auth_context r s)
  upserted_session :
      (now : ℕ) (request : PlanWorkflowRequest) (s : Store)
      → Step lib s ((upsert_session lib now request s).1)

-- The stores that calls make of an empty one.
pub data IsReachable (lib : Digests) : Store → Type 0 where
  at_start : IsReachable lib empty
  after : {s t : Store} → IsReachable lib s → Step lib s t → IsReachable lib t

register_auth_context-IsWellKeyed :
    (r : TokenRegistryRecord) (s : Store) → IsWellKeyed s → IsWellKeyed (register_auth_context r s)
unfolding register_auth_context
register_auth_context-IsWellKeyed r s h = record {
  sessions = h.sessions;
  workflows = h.workflows;
  tokens = insert-IsKeyed token_identity r s.tokens h.tokens;
  threads = h.threads;
}

registered-IsWellKeyed :
    (now : ℕ) (r : SessionRecord) (c t : Option String) (s : Store)
    → IsWellKeyed s
    → IsWellKeyed (registered now r c t s)
registered-IsWellKeyed now r (some c) (some t) s h = register_auth_context-IsWellKeyed _ s h
registered-IsWellKeyed now r none t s h = h
registered-IsWellKeyed now r (some c) none s h = h

Step-IsWellKeyed : (lib : Digests) {s t : Store} → Step lib s t → IsWellKeyed s → IsWellKeyed t
unfolding save_workflow save_thread upsert_session
Step-IsWellKeyed lib (saved_workflow r s) h = record {
  sessions = h.sessions;
  workflows = insert-IsKeyed workflow_identity r s.workflows h.workflows;
  tokens = h.tokens;
  threads = h.threads;
}
Step-IsWellKeyed lib (saved_thread r s) h = record {
  sessions = h.sessions;
  workflows = h.workflows;
  tokens = h.tokens;
  threads = insert-IsKeyed thread_identity r s.threads h.threads;
}
Step-IsWellKeyed lib (registered_context r s) h = register_auth_context-IsWellKeyed r s h
Step-IsWellKeyed lib (upserted_session now request s) h =
    registered-IsWellKeyed now (session_record_for_request lib now request) _ _ _ (record {
      sessions =
          insert-IsKeyed session_scope (session_record_for_request lib now request) s.sessions
            h.sessions;
      workflows = h.workflows;
      tokens = h.tokens;
      threads = h.threads;
    })

pub IsReachable-IsWellKeyed : (lib : Digests) (s : Store) → IsReachable lib s → IsWellKeyed s
IsReachable-IsWellKeyed lib s at_start = record {
  sessions = tt;
  workflows = tt;
  tokens = tt;
  threads = tt;
}
IsReachable-IsWellKeyed lib t (after r step) =
    Step-IsWellKeyed lib step (IsReachable-IsWellKeyed lib _ r)

pub get_workflow-identity :
    (s : Store) (id : Identity) (r : WorkflowRecord)
    → IsWellKeyed s
    → get_workflow s id.item_id id.user_id id.session_id id.tenant_id ≡ some r
    → workflow_identity r ≡ id
unfolding get_workflow
get_workflow-identity s id r h e = lookup-IsKeyed workflow_identity id s.workflows r h.workflows e

-- In a store made by calls, a look-up yields a workflow or a thread of the very tenant, user and
-- session that it is asked for, with that identifier.
pub get-identity :
    (lib : Digests) (s : Store) (id : Identity)
    → IsReachable lib s
    → ((r : WorkflowRecord)
        → get_workflow s id.item_id id.user_id id.session_id id.tenant_id ≡ some r
        → workflow_identity r ≡ id)
      × ((r : ThreadRecord)
          → get_thread s id.item_id id.user_id id.session_id id.tenant_id ≡ some r
          → thread_identity r ≡ id)
unfolding get_thread
get-identity lib s id reachable =
    let h = IsReachable-IsWellKeyed lib s reachable in
    (
      λ r e. get_workflow-identity s id r h e,
      λ r e. lookup-IsKeyed thread_identity id s.threads r h.threads e,
    )

-- After a workflow is saved, a look-up of its identity yields it, and a look-up of any other
-- identity yields what it did before.
pub get_workflow-save_workflow :
    (r : WorkflowRecord) (s : Store) (id : Identity)
    → get_workflow (save_workflow r s) id.item_id id.user_id id.session_id id.tenant_id ≡ (
        if same_identity (workflow_identity r) id
        then some r
        else get_workflow s id.item_id id.user_id id.session_id id.tenant_id)
unfolding get_workflow save_workflow
get_workflow-save_workflow r s id = lookup-insert (workflow_identity r) id r s.workflows

-- After a thread is saved, a look-up of its identity yields it, and a look-up of any other identity
-- yields what it did before.
pub get_thread-save_thread :
    (r : ThreadRecord) (s : Store) (id : Identity)
    → get_thread (save_thread r s) id.item_id id.user_id id.session_id id.tenant_id ≡ (
        if same_identity (thread_identity r) id
        then some r
        else get_thread s id.item_id id.user_id id.session_id id.tenant_id)
unfolding get_thread save_thread
get_thread-save_thread r s id = lookup-insert (thread_identity r) id r s.threads

-- A token reference that was registered yields its credential to its own tenant, user and session
-- only: for any other identity the look-up yields what it did before.
pub get_auth_context-register_auth_context :
    (r : TokenRegistryRecord) (s : Store) (id : Identity)
    → get_auth_context (register_auth_context r s) id.user_id id.session_id id.item_id id.tenant_id
      ≡ (if same_identity (token_identity r) id
          then some r.auth_context_ref
          else get_auth_context s id.user_id id.session_id id.item_id id.tenant_id)
unfolding get_auth_context register_auth_context
get_auth_context-register_auth_context r s id =
    ground (arith, lookup-insert (token_identity r) id r s.tokens)
