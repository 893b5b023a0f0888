-- ===== src/AgentService/History.antt =====
-- services/agent_service/agent_service/state.py: what a store answers after any calls, told from the
-- calls alone.
use user_delegated_auth_serv.Base.{
  ℕ, String, ◌≡◌, refl, ap, ◌∙◌, Bool, true, false, ◌&&◌, ◌==◌, opt_eq, insert, Option, none, some,
  List, [], ◌∷◌, if◌then◌else◌,
}
use user_delegated_auth_serv.Externals.{Digests}
use user_delegated_auth_serv.AgentService.Models.{
  SessionRecord, TokenRegistryRecord, WorkflowRecord, ThreadRecord,
}
use user_delegated_auth_serv.AgentService.Store.{
  Store, Identity, get_workflow, get_thread, get_auth_context, registered, present, same_identity,
  session_scope, scope_eq, workflow_identity, thread_identity, token_identity,
  session_record_for_request, token_ref_for_request, upsert_session,
}
use user_delegated_auth_serv.AgentService.Store.Isolation.{
  get_workflow-save_workflow, get_thread-save_thread, get_auth_context-register_auth_context,
}
use user_delegated_auth_serv.AgentService.RedisStore.Runs.{Operation, apply, apply_all}

abbrev first_of {ℓ} : {A : Type ℓ} → Option A → Option A → Option A
first_of (some a) before = some a
first_of none before = before

-- What the last of the calls that yields something yields, or else `before`.
abbrev pub last_of {ℓ} :
    {A : Type ℓ} → (Operation → Option A) → List Operation → Option A → Option A
last_of yields [] before = before
last_of yields (o ∷ os) before = last_of yields os (first_of (yields o) before)

module _ (item_id user_id session_id : String) (tenant_id : Option String) where
  -- The workflow of that identifier, user, session and tenant that a call saves.
  abbrev pub saved_workflow : Operation → Option WorkflowRecord
  saved_workflow (Operation.save_workflow r) =
      if opt_eq r.tenant_id tenant_id
        && r.user_id == user_id
        && r.session_id == session_id
        && r.workflow_id == item_id
      then some r
      else none
  saved_workflow _ = none

  abbrev pub saved_thread : Operation → Option ThreadRecord
  saved_thread (Operation.save_thread r) =
      if opt_eq r.tenant_id tenant_id
        && r.user_id == user_id
        && r.session_id == session_id
        && r.thread_id == item_id
      then some r
      else none
  saved_thread _ = none

  abbrev credential_of :
      Option String → Option String → Option String → String → String → Option String
  credential_of (some auth_context_ref) (some token_ref) tenant user session =
      if opt_eq tenant tenant_id && user == user_id && session == session_id && token_ref == item_id
      then some auth_context_ref
      else none
  credential_of _ _ tenant user session = none

  -- The credential that a call registers for that token reference, user, session and tenant; a session
  -- registers its request's, under the reference that the request gives or that is made for it.
  abbrev pub registered_credential : Digests → Operation → Option String
  registered_credential lib (Operation.register_auth_context r) =
      credential_of (some r.auth_context_ref) (some r.token_ref) r.tenant_id r.user_id r.session_id
  registered_credential lib (Operation.upsert_session now request) =
      credential_of (present request.auth_context_ref) (present (token_ref_for_request lib request))
        request.tenant_id request.user_id request.session_id
  registered_credential lib _ = none

  abbrev identity : Identity
  identity = record {
    tenant_id = tenant_id;
    user_id = user_id;
    session_id = session_id;
    item_id = item_id;
  }

  if-first_of :
      {A : Type 0} (b : Bool) (a : A) (before : Option A)
      → (if b then some a else before) ≡ first_of (if b then some a else none) before
  if-first_of true a before = refl
  if-first_of false a before = refl

  registered_others :
      (now : ℕ) (r : SessionRecord) (c t : Option String) (s : Store)
      → (get_workflow (registered now r c t s) item_id user_id session_id tenant_id
          ≡ get_workflow s item_id user_id session_id tenant_id)
        × (get_thread (registered now r c t s) item_id user_id session_id tenant_id
            ≡ get_thread s item_id user_id session_id tenant_id)
  unfolding get_workflow get_thread
      user_delegated_auth_serv.AgentService.Store.register_auth_context
  registered_others now r none t s = (refl, refl)
  registered_others now r (some c) none s = (refl, refl)
  registered_others now r (some c) (some t) s = (refl, refl)

  registered_own :
      (now : ℕ) (r : SessionRecord) (c t : Option String) (s : Store)
      → get_auth_context (registered now r c t s) user_id session_id item_id tenant_id
        ≡ first_of
            (credential_of c t r.tenant_id r.user_id r.session_id)
            (get_auth_context s user_id session_id item_id tenant_id)
  registered_own now r none t s = refl
  registered_own now r (some c) none s = refl
  registered_own now r (some c) (some t) s =
      let record_of : TokenRegistryRecord = record {
        user_id = r.user_id;
        session_id = r.session_id;
        tenant_id = r.tenant_id;
        token_ref = t;
        auth_context_ref = c;
        updated_at = now;
      } in
      get_auth_context-register_auth_context record_of s identity
      ∙ if-first_of (same_identity (token_identity record_of) identity) c
          (get_auth_context s user_id session_id item_id tenant_id)

  module _ (lib : Digests) where
    workflow_step :
        (o : Operation) (s : Store)
        → get_workflow (apply lib o s) item_id user_id session_id tenant_id
          ≡ first_of (saved_workflow o) (get_workflow s item_id user_id session_id tenant_id)
    unfolding apply get_workflow upsert_session
        user_delegated_auth_serv.AgentService.Store.save_thread
        user_delegated_auth_serv.AgentService.Store.register_auth_context
    workflow_step (Operation.save_workflow r) s =
        get_workflow-save_workflow r s identity
        ∙ if-first_of (same_identity (workflow_identity r) identity) r
            (get_workflow s item_id user_id session_id tenant_id)
    workflow_step (Operation.save_thread r) s = refl
    workflow_step (Operation.register_auth_context r) s = refl
    workflow_step (Operation.upsert_session now request) s =
        (registered_others now (session_record_for_request lib now request) _ _ _).0

    thread_step :
        (o : Operation) (s : Store)
        → get_thread (apply lib o s) item_id user_id session_id tenant_id
          ≡ first_of (saved_thread o) (get_thread s item_id user_id session_id tenant_id)
    unfolding apply get_thread upsert_session
        user_delegated_auth_serv.AgentService.Store.save_workflow
        user_delegated_auth_serv.AgentService.Store.register_auth_context
    thread_step (Operation.save_thread r) s =
        get_thread-save_thread r s identity
        ∙ if-first_of (same_identity (thread_identity r) identity) r
            (get_thread s item_id user_id session_id tenant_id)
    thread_step (Operation.save_workflow r) s = refl
    thread_step (Operation.register_auth_context r) s = refl
    thread_step (Operation.upsert_session now request) s =
        (registered_others now (session_record_for_request lib now request) _ _ _).1

    credential_step :
        (o : Operation) (s : Store)
        → get_auth_context (apply lib o s) user_id session_id item_id tenant_id
          ≡ first_of
              (registered_credential lib o)
              (get_auth_context s user_id session_id item_id tenant_id)
    unfolding apply get_auth_context upsert_session session_record_for_request
        user_delegated_auth_serv.AgentService.Store.save_thread
        user_delegated_auth_serv.AgentService.Store.save_workflow
    credential_step (Operation.register_auth_context r) s =
        get_auth_context-register_auth_context r s identity
        ∙ if-first_of (same_identity (token_identity r) identity) r.auth_context_ref
            (get_auth_context s user_id session_id item_id tenant_id)
    credential_step (Operation.save_workflow r) s = refl
    credential_step (Operation.save_thread r) s = refl
    credential_step (Operation.upsert_session now request) s =
        let r = session_record_for_request lib now request in
        registered_own now r (present r.auth_context_ref) (present r.token_ref)
          (record s { sessions = insert (session_scope r) r s.sessions })

    -- The answers of a store are told from the calls.
    pub record IsTold (os : List Operation) (before after : Store) : Type 0 where
      pub workflow :
          get_workflow after item_id user_id session_id tenant_id
          ≡ last_of saved_workflow os (get_workflow before item_id user_id session_id tenant_id)
      pub thread :
          get_thread after item_id user_id session_id tenant_id
          ≡ last_of saved_thread os (get_thread before item_id user_id session_id tenant_id)
      pub credential :
          get_auth_context after user_id session_id item_id tenant_id
          ≡ last_of
              (registered_credential lib)
              os
              (get_auth_context before user_id session_id item_id tenant_id)

    -- After any calls, a look-up yields the workflow, the thread or the credential that the last of the
    -- calls stored for that very identifier, user, session and tenant, whatever the calls for others
    -- were; and if none did, it yields what it did before the calls.
    pub apply_all-IsTold : (os : List Operation) (s : Store) → IsTold os s (apply_all lib os s)
    unfolding apply_all
    apply_all-IsTold [] s = record { workflow = refl; thread = refl; credential = refl }
    apply_all-IsTold (o ∷ os) s =
        let later = apply_all-IsTold os (apply lib o s) in
        record {
          workflow = later.workflow ∙ ap (last_of saved_workflow os) (workflow_step o s);
          thread = later.thread ∙ ap (last_of saved_thread os) (thread_step o s);
          credential =
              later.credential ∙ ap (last_of (registered_credential lib) os) (credential_step o s);
        }
