-- ===== src/AgentService/RedisStore/Refinement.antt =====
-- services/agent_service/agent_service/state.py: the Redis-backed store as an implementation of the
-- process-local one.
use user_delegated_auth_serv.Base.{
  String, ◌≡◌, refl, sym, ◌∙◌, Bool, true, false, Option, some, Result, ok, is_empty, Table, ◌>>=◌,
  ap, Result-cases, inl, inr, if◌then◌else◌,
}
use user_delegated_auth_serv.SessionState.Keys.{build_session_key}
use user_delegated_auth_serv.SessionState.Keys.Injective.{build_key}
use user_delegated_auth_serv.SessionState.Redis.{Key, Redis, IsDatabase}
use user_delegated_auth_serv.AgentService.Models.{
  SessionRecord, TokenRegistryRecord, WorkflowRecord, ThreadRecord,
}
use user_delegated_auth_serv.AgentService.Store as Memory
use user_delegated_auth_serv.AgentService.Store.{
  Identity, same_identity, workflow_identity, thread_identity, token_identity, context_ref,
  SessionScope,
}
use user_delegated_auth_serv.AgentService.Store.Isolation.{
  get_workflow-save_workflow, get_thread-save_thread, get_auth_context-register_auth_context,
}
use user_delegated_auth_serv.AgentService.RedisStore as Remote
use user_delegated_auth_serv.AgentService.RedisStore.{JsonModels, RedisSettings}
use user_delegated_auth_serv.AgentService.RedisStore.Items.{
  IsNamed, IsReadBack, workflows, tokens, threads, key_of, key_at, find, find-save, find-save_kind,
  find-save_session,
}

-- A test before a value, and before a computation that returns.
joined {ℓ} :
    {A : Type ℓ} (b : Bool) (x old : A) (r : Result A)
    → r ≡ ok old
    → (if b then ok x else r) ≡ ok (if b then x else old)
joined true x old r e = refl
joined false x old r e = e

read_context :
    (b : Bool) (r : TokenRegistryRecord) (found : Result (Option TokenRegistryRecord))
    (old : Option String)
    → (found >>= λ t. ok (context_ref t)) ≡ ok old
    → ((if b then ok (some r) else found) >>= λ t. ok (context_ref t))
      ≡ ok (if b then some r.auth_context_ref else old)
read_context true r found old e = refl
read_context false r found old e = e

module _ {D : Type 0} (redis : Redis D) (models : JsonModels) (settings : RedisSettings)
    (database : IsDatabase redis) where
  -- The two stores answer each look-up of a named identity alike.
  pub record Agrees (d : D) (s : Memory.Store) : Type 0 where
    pub get_workflow :
        (i : Identity)
        → IsNamed i
        → Remote.get_workflow redis models settings d i.item_id i.user_id i.session_id i.tenant_id
          ≡ ok (Memory.get_workflow s i.item_id i.user_id i.session_id i.tenant_id)
    pub get_auth_context :
        (i : Identity)
        → IsNamed i
        → Remote.get_auth_context redis models settings d i.user_id i.session_id i.item_id
            i.tenant_id
          ≡ ok (Memory.get_auth_context s i.user_id i.session_id i.item_id i.tenant_id)
    pub get_thread :
        (i : Identity)
        → IsNamed i
        → Remote.get_thread redis models settings d i.item_id i.user_id i.session_id i.tenant_id
          ≡ ok (Memory.get_thread s i.item_id i.user_id i.session_id i.tenant_id)

  -- A look-up of a credential reads the token's record.
  get_auth_context_lem :
      (d : D) (i : Identity)
      → Remote.get_auth_context redis models settings d i.user_id i.session_id i.item_id i.tenant_id
        ≡ (find redis models settings database models.tokens tokens i d >>= λ r. ok (context_ref r))
  unfolding Remote.get_auth_context build_key
  get_auth_context_lem d i = elim (Result-cases (key_at settings.key_prefix tokens i)) [
    | inl (x, p) ↦ rw p refl
    | inr (key, p) ↦ rw p refl
  ]

  same_context :
      (d' d : D) (i : Identity)
      → find redis models settings database models.tokens tokens i d'
        ≡ find redis models settings database models.tokens tokens i d
      → Remote.get_auth_context redis models settings d' i.user_id i.session_id i.item_id
          i.tenant_id
        ≡ Remote.get_auth_context redis models settings d i.user_id i.session_id i.item_id
            i.tenant_id
  same_context d' d i same =
      get_auth_context_lem d' i
      ∙ ap (λ x. x >>= λ r. ok (context_ref r)) same
      ∙ sym (get_auth_context_lem d i)

  module _ (prefixed : is_empty settings.key_prefix ≡ false) (d : D) (s : Memory.Store)
      (agrees : Agrees d s) where
    pub save_workflow-Agrees :
        (r : WorkflowRecord)
        → IsReadBack models.workflows r
        → IsNamed (workflow_identity r)
        → (d' : D) × (Remote.save_workflow redis models settings r d ≡ ok d')
          × Agrees d' (Memory.save_workflow r s)
    unfolding Remote.save_workflow Remote.get_workflow Remote.get_thread Memory.get_thread
        Memory.get_auth_context Memory.save_workflow build_key
    save_workflow-Agrees r readback named =
        let id = workflow_identity r in
        let (key, e) = key_of settings.key_prefix workflows id prefixed named in
        let d' = Remote.set redis models settings models.workflows key r d in
        (
          d',
          rw e refl,
          record {
            get_workflow = λ i h.
                find-save redis models settings database models.workflows workflows id i r d key
                  readback named h e
                ∙ joined (same_identity id i) _ _ _ (agrees.get_workflow i h)
                ∙ ap ok (sym (get_workflow-save_workflow r s i));
            get_auth_context = λ i h.
                same_context d' d i (
                  find-save_kind redis models settings database models.workflows models.tokens
                    workflows tokens id i r d key named h e (cc))
                ∙ agrees.get_auth_context i h;
            get_thread = λ i h.
                find-save_kind redis models settings database models.workflows models.threads
                  workflows threads id i r d key named h e (cc)
                ∙ agrees.get_thread i h;
          },
        )

    pub save_thread-Agrees :
        (r : ThreadRecord)
        → IsReadBack models.threads r
        → IsNamed (thread_identity r)
        → (d' : D) × (Remote.save_thread redis models settings r d ≡ ok d')
          × Agrees d' (Memory.save_thread r s)
    unfolding Remote.save_thread Remote.get_workflow Remote.get_thread Memory.get_workflow
        Memory.get_auth_context Memory.save_thread build_key
    save_thread-Agrees r readback named =
        let id = thread_identity r in
        let (key, e) = key_of settings.key_prefix threads id prefixed named in
        let d' = Remote.set redis models settings models.threads key r d in
        (
          d',
          rw e refl,
          record {
            get_workflow = λ i h.
                find-save_kind redis models settings database models.threads models.workflows
                  threads workflows id i r d key named h e (cc)
                ∙ agrees.get_workflow i h;
            get_auth_context = λ i h.
                same_context d' d i (
                  find-save_kind redis models settings database models.threads models.tokens threads
                    tokens id i r d key named h e (cc))
                ∙ agrees.get_auth_context i h;
            get_thread = λ i h.
                find-save redis models settings database models.threads threads id i r d key
                  readback named h e
                ∙ joined (same_identity id i) _ _ _ (agrees.get_thread i h)
                ∙ ap ok (sym (get_thread-save_thread r s i));
          },
        )

    pub register_auth_context-Agrees :
        (r : TokenRegistryRecord)
        → IsReadBack models.tokens r
        → IsNamed (token_identity r)
        → (d' : D) × (Remote.register_auth_context redis models settings r d ≡ ok d')
          × Agrees d' (Memory.register_auth_context r s)
    unfolding Remote.register_auth_context Remote.get_workflow Remote.get_thread Memory.get_workflow
        Memory.get_thread Memory.register_auth_context build_key
    register_auth_context-Agrees r readback named =
        let id = token_identity r in
        let (key, e) = key_of settings.key_prefix tokens id prefixed named in
        let d' = Remote.set redis models settings models.tokens key r d in
        (
          d',
          rw e refl,
          record {
            get_workflow = λ i h.
                find-save_kind redis models settings database models.tokens models.workflows tokens
                  workflows id i r d key named h e (cc)
                ∙ agrees.get_workflow i h;
            get_auth_context = λ i h.
                get_auth_context_lem d' i
                ∙ ap (λ x. x >>= λ r. ok (context_ref r))
                    (find-save redis models settings database models.tokens tokens id i r d key
                      readback named h e)
                ∙ read_context (same_identity id i) r _ _
                    (sym (get_auth_context_lem d i) ∙ agrees.get_auth_context i h)
                ∙ ap ok (sym (get_auth_context-register_auth_context r s i));
            get_thread = λ i h.
                find-save_kind redis models settings database models.tokens models.threads tokens
                  threads id i r d key named h e (cc)
                ∙ agrees.get_thread i h;
          },
        )

    pub session_saved-Agrees :
        (r : SessionRecord) (sessions : Table SessionScope SessionRecord) (key : Key)
        → build_session_key settings.key_prefix r.tenant_id r.user_id r.session_id ≡ ok key
        → Agrees
            (Remote.set redis models settings models.sessions key r d)
            (record s { sessions = sessions })
    unfolding Remote.get_workflow Remote.get_thread Memory.get_workflow Memory.get_thread
        Memory.get_auth_context build_key
    session_saved-Agrees r sessions key e =
        let id : Identity = record {
          tenant_id = r.tenant_id;
          user_id = r.user_id;
          session_id = r.session_id;
          item_id = "";
        } in
        let d' = Remote.set redis models settings models.sessions key r d in
        record {
          get_workflow = λ i h.
              find-save_session redis models settings database models.sessions models.workflows
                workflows id i r d key e
              ∙ agrees.get_workflow i h;
          get_auth_context = λ i h.
              same_context d' d i (
                find-save_session redis models settings database models.sessions models.tokens
                  tokens id i r d key e)
              ∙ agrees.get_auth_context i h;
          get_thread = λ i h.
              find-save_session redis models settings database models.sessions models.threads
                threads id i r d key e
              ∙ agrees.get_thread i h;
        }
