-- ===== src/AgentService/RedisStore/Runs.antt =====
-- services/agent_service/agent_service/state.py: the two stores over any sequence of operations.
use user_delegated_auth_serv.Base.{
  ℕ, String, ◌≡◌, refl, false, Option, none, some, List, [], ◌∷◌, Result, ok, ◌>>=◌, is_empty, All,
  Bool-cases, inl, inr, insert,
}
use user_delegated_auth_serv.Externals.{Digests}
use user_delegated_auth_serv.SessionState.Keys.Injective.{build_key}
use user_delegated_auth_serv.SessionState.Redis.{Key, Redis, IsDatabase}
use user_delegated_auth_serv.AgentService.Models.{
  PlanWorkflowRequest, SessionRecord, TokenRegistryRecord, WorkflowRecord, ThreadRecord,
}
use user_delegated_auth_serv.AgentService.Store as Memory
use user_delegated_auth_serv.AgentService.Store.{
  Identity, workflow_identity, thread_identity, token_identity, present, session_record_for_request,
  session_scope, scope_eq,
}
use user_delegated_auth_serv.AgentService.RedisStore as Remote
use user_delegated_auth_serv.AgentService.RedisStore.{JsonModels, RedisSettings}
use user_delegated_auth_serv.AgentService.RedisStore.Items.{
  IsNamed, IsNamedTenant, IsReadBack, session_key_of, key_of, workflows, tokens, threads,
}
use user_delegated_auth_serv.AgentService.RedisStore.Refinement.{
  Agrees, save_workflow-Agrees, save_thread-Agrees, register_auth_context-Agrees,
  session_saved-Agrees,
}

-- The operations that change a store, with the clock's reading where the code reads it.
pub data Operation : Type 0 where
  save_workflow : WorkflowRecord → Operation
  save_thread : ThreadRecord → Operation
  register_auth_context : TokenRegistryRecord → Operation
  upsert_session : (now : ℕ) → PlanWorkflowRequest → Operation

abbrev IsFilled : Option String → Type 0
IsFilled none = Unit
IsFilled (some text) = is_empty text ≡ false

present-IsFilled : (o : Option String) → IsFilled (present o)
present-IsFilled none = tt
present-IsFilled (some text) = elim (Bool-cases (is_empty text)) [
  | inl e ↦ rw e tt
  | inr e ↦ rw e e
]

-- The record of a session's credential.
abbrev pub token_record : ℕ → SessionRecord → String → String → TokenRegistryRecord
token_record now r auth_context_ref token_ref = record {
  user_id = r.user_id;
  session_id = r.session_id;
  tenant_id = r.tenant_id;
  token_ref = token_ref;
  auth_context_ref = auth_context_ref;
  updated_at = now;
}

abbrev CredentialIsReadBack :
    JsonModels → ℕ → SessionRecord → Option String → Option String → Type 0
CredentialIsReadBack models now r (some context) (some token) =
    IsReadBack models.tokens (token_record now r context token)
CredentialIsReadBack models now r _ _ = Unit

module _ (lib : Digests) where
  -- The identities in it are named, and what is read later is read back as it was written.
  abbrev pub IsStorable : JsonModels → Operation → Type 0
  IsStorable models (save_workflow r) =
      IsReadBack models.workflows r × IsNamed (workflow_identity r)
  IsStorable models (save_thread r) = IsReadBack models.threads r × IsNamed (thread_identity r)
  IsStorable models (register_auth_context r) =
      IsReadBack models.tokens r × IsNamed (token_identity r)
  IsStorable models (upsert_session now request) =
      CredentialIsReadBack models now (session_record_for_request lib now request)
        (present (session_record_for_request lib now request).auth_context_ref)
        (present (session_record_for_request lib now request).token_ref)
      × IsNamedTenant request.tenant_id
      × (is_empty request.user_id ≡ false)
      × (is_empty request.session_id ≡ false)

  unfoldable pub apply : Operation → Memory.Store → Memory.Store
  apply (save_workflow r) s = Memory.save_workflow r s
  apply (save_thread r) s = Memory.save_thread r s
  apply (register_auth_context r) s = Memory.register_auth_context r s
  apply (upsert_session now request) s = (Memory.upsert_session lib now request s).1

  unfoldable pub apply_all : List Operation → Memory.Store → Memory.Store
  unfolding apply
  apply_all [] s = s
  apply_all (o ∷ os) s = apply_all os (apply o s)

  module _ {D : Type 0} (redis : Redis D) (models : JsonModels) (settings : RedisSettings) where
    unfoldable pub remote_apply : Operation → D → Result D
    remote_apply (save_workflow r) d = Remote.save_workflow redis models settings r d
    remote_apply (save_thread r) d = Remote.save_thread redis models settings r d
    remote_apply (register_auth_context r) d =
        Remote.register_auth_context redis models settings r d
    remote_apply (upsert_session now request) d =
        Remote.upsert_session redis models settings lib now request d >>= λ out. ok out.1

    unfoldable pub remote_apply_all : List Operation → D → Result D
    unfolding remote_apply
    remote_apply_all [] d = ok d
    remote_apply_all (o ∷ os) d = remote_apply o d >>= remote_apply_all os

    module _ (database : IsDatabase redis) (prefixed : is_empty settings.key_prefix ≡ false) where
      -- Both stores register the credential of a session alike.
      registered-Agrees :
          (now : ℕ) (r : SessionRecord) (context token : Option String) (d : D) (s : Memory.Store)
          → IsNamedTenant r.tenant_id
          → is_empty r.user_id ≡ false
          → is_empty r.session_id ≡ false
          → IsFilled token
          → CredentialIsReadBack models now r context token
          → Agrees redis models settings database d s
          → (d' : D) × (Remote.registered redis models settings now r context token d ≡ ok d')
            × Agrees redis models settings database d' (Memory.registered now r context token s)
      registered-Agrees now r none token d s t u se filled readback agrees = (d, refl, agrees)
      registered-Agrees now r (some context) none d s t u se filled readback agrees =
          (d, refl, agrees)
      registered-Agrees now r (some context) (some token) d s t u se filled readback agrees =
          register_auth_context-Agrees redis models settings database prefixed d s agrees _ readback
            (t, u, se, filled)

      upsert_session-Agrees :
          (now : ℕ) (request : PlanWorkflowRequest) (d : D) (s : Memory.Store)
          → IsStorable models (upsert_session now request)
          → Agrees redis models settings database d s
          → (d' : D) × (remote_apply (upsert_session now request) d ≡ ok d')
            × Agrees redis models settings database d' (apply (upsert_session now request) s)
      unfolding remote_apply apply Memory.upsert_session Remote.upsert_session
          Memory.session_record_for_request
      upsert_session-Agrees now request d s (readback, t, u, se) agrees =
          let r = session_record_for_request lib now request in
          let (key, e) =
            session_key_of settings.key_prefix r.tenant_id r.user_id r.session_id prefixed t u se in
          let kept =
            session_saved-Agrees redis models settings database prefixed d s agrees r
              (insert (session_scope r) r s.sessions) key e in
          let (d', registers, agrees') =
            registered-Agrees now r (present r.auth_context_ref) (present r.token_ref) _ _ t u se
              (present-IsFilled r.token_ref) readback kept in
          (d', rw (e, registers) refl, agrees')

      remote_apply-Agrees :
          (o : Operation) (d : D) (s : Memory.Store)
          → IsStorable models o
          → Agrees redis models settings database d s
          → (d' : D) × (remote_apply o d ≡ ok d')
            × Agrees redis models settings database d' (apply o s)
      unfolding remote_apply apply
      remote_apply-Agrees (save_workflow r) d s h a =
          save_workflow-Agrees redis models settings database prefixed d s a r h.0 h.1
      remote_apply-Agrees (save_thread r) d s h a =
          save_thread-Agrees redis models settings database prefixed d s a r h.0 h.1
      remote_apply-Agrees (register_auth_context r) d s h a =
          register_auth_context-Agrees redis models settings database prefixed d s a r h.0 h.1
      remote_apply-Agrees (upsert_session now request) d s h a =
          upsert_session-Agrees now request d s h a

      -- Two empty stores agree.
      pub empty-Agrees :
          (d : D)
          → ((key : Key) → redis.get key d ≡ none)
          → Agrees redis models settings database d Memory.empty
      unfolding Remote.get_workflow Remote.get_auth_context Remote.get_thread Remote.get
          Memory.get_workflow Memory.get_auth_context Memory.get_thread build_key
      empty-Agrees d fresh = record {
        get_workflow = λ i h.
            let (key, e) = key_of settings.key_prefix workflows i prefixed h in
            rw (e, fresh key) refl;
        get_auth_context = λ i h.
            let (key, e) = key_of settings.key_prefix tokens i prefixed h in rw (e, fresh key) refl;
        get_thread = λ i h.
            let (key, e) = key_of settings.key_prefix threads i prefixed h in
            rw (e, fresh key) refl;
      }

      -- Whatever operations on named identities are carried out, in any order, none of them fails on
      -- Redis, and then both stores answer every look-up of a named identity alike, if they did before;
      -- what is stored is read back as it was written.
      pub remote_apply_all-Agrees :
          (os : List Operation) (d : D) (s : Memory.Store)
          → All (IsStorable models) os
          → Agrees redis models settings database d s
          → (d' : D) × (remote_apply_all os d ≡ ok d')
            × Agrees redis models settings database d' (apply_all os s)
      unfolding remote_apply_all apply_all
      remote_apply_all-Agrees [] d s h a = (d, refl, a)
      remote_apply_all-Agrees (o ∷ os) d s h a =
          let (d', e, a') = remote_apply-Agrees o d s h.0 a in
          let (d'', e', a'') = remote_apply_all-Agrees os d' (apply o s) h.1 a' in
          (d'', rw e e', a'')
