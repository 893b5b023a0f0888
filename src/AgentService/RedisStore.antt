-- ===== src/AgentService/RedisStore.antt =====
-- services/agent_service/agent_service/state.py: the store over Redis, and the choice of a store. The
-- settings of the process are a parameter, as is `int`.
pub mod Items
pub mod Refinement
pub mod Runs
use user_delegated_auth_serv.Base.{
  ℕ, String, Bool, true, false, Option, none, some, List, Result, ok, err, Exception, guard, ◌>>=◌,
  ◌>>◌, runtime_error, is_empty, not, strip, ◌==◌, ◌||◌, opt_eq, if◌then◌else◌,
}
use user_delegated_auth_serv.Externals.{Digests}
use user_delegated_auth_serv.SessionState.Keys.{
  build_session_key, build_workflow_key, build_thread_key, token_key,
}
use user_delegated_auth_serv.SessionState.Redis.{Key, Blob, Redis, decode_json_blob}
use user_delegated_auth_serv.AgentService.Models.{
  PlanWorkflowRequest, SessionRecord, TokenRegistryRecord, WorkflowRecord, ThreadRecord,
}
use user_delegated_auth_serv.AgentService.Store.{present, session_record_for_request, context_ref}

-- A record's `model_dump_json` and `model_validate_json`.
pub record JsonModel (M : Type 0) : Type 0 where
  pub model_dump_json : M → String
  pub model_validate_json : String → Result M

pub record JsonModels : Type 0 where
  pub sessions : JsonModel SessionRecord
  pub workflows : JsonModel WorkflowRecord
  pub tokens : JsonModel TokenRegistryRecord
  pub threads : JsonModel ThreadRecord

pub record RedisSettings : Type 0 where
  pub key_prefix : String
  pub ttl_seconds : Option ℕ

module _ {D : Type 0} (redis : Redis D) (models : JsonModels) (settings : RedisSettings) where
  -- `_set`
  unfoldable pub set : {M : Type 0} → JsonModel M → Key → M → D → D
  set model key value d = redis.set key (model.model_dump_json value) settings.ttl_seconds d

  abbrev validated : {M : Type 0} → JsonModel M → Option Blob → Result (Option M)
  validated model none = ok none
  validated model (some raw) = do
    json ← decode_json_blob redis raw
    value ← model.model_validate_json json
    ok (some value)

  -- `_get`
  unfoldable pub get : {M : Type 0} → JsonModel M → Key → D → Result (Option M)
  unfolding decode_json_blob
  get model key d = validated model (redis.get key d)

  unfoldable pub save_workflow : WorkflowRecord → D → Result D
  unfolding set
  save_workflow r d = do
    key ← build_workflow_key settings.key_prefix r.tenant_id r.user_id r.session_id r.workflow_id
    ok (set models.workflows key r d)

  unfoldable pub get_workflow :
      D → String → String → String → Option String → Result (Option WorkflowRecord)
  unfolding get
  get_workflow d workflow_id user_id session_id tenant_id = do
    key ← build_workflow_key settings.key_prefix tenant_id user_id session_id workflow_id
    get models.workflows key d

  unfoldable pub register_auth_context : TokenRegistryRecord → D → Result D
  unfolding set
  register_auth_context r d = do
    key ← token_key settings.key_prefix r.tenant_id r.user_id r.session_id r.token_ref
    ok (set models.tokens key r d)

  unfoldable pub get_auth_context :
      D → String → String → String → Option String → Result (Option String)
  unfolding get
  get_auth_context d user_id session_id token_ref tenant_id = do
    key ← token_key settings.key_prefix tenant_id user_id session_id token_ref
    found ← get models.tokens key d
    ok (context_ref found)

  unfoldable pub save_thread : ThreadRecord → D → Result D
  unfolding set
  save_thread r d = do
    key ← build_thread_key settings.key_prefix r.tenant_id r.user_id r.session_id r.thread_id
    ok (set models.threads key r d)

  unfoldable pub get_thread :
      D → String → String → String → Option String → Result (Option ThreadRecord)
  unfolding get
  get_thread d thread_id user_id session_id tenant_id = do
    key ← build_thread_key settings.key_prefix tenant_id user_id session_id thread_id
    get models.threads key d

  abbrev pub registered : ℕ → SessionRecord → Option String → Option String → D → Result D
  registered now r (some auth_context_ref) (some token_ref) d =
      register_auth_context
        (record {
          user_id = r.user_id;
          session_id = r.session_id;
          tenant_id = r.tenant_id;
          token_ref = token_ref;
          auth_context_ref = auth_context_ref;
          updated_at = now;
        })
        d
  registered now r _ _ d = ok d

  unfoldable pub upsert_session : Digests → ℕ → PlanWorkflowRequest → D → Result (SessionRecord × D)
  unfolding session_record_for_request register_auth_context set
  upsert_session lib now request d = do
    let r = session_record_for_request lib now request
    key ← build_session_key settings.key_prefix r.tenant_id r.user_id r.session_id
    d' ←
        registered now r (present r.auth_context_ref) (present r.token_ref)
          (set models.sessions key r d)
    ok (r, d')

-- The process's environment: `os.getenv`, `str.lower` and `int`.
pub record Process : Type 0 where
  pub getenv : String → Option String
  pub lower : String → String
  pub parse_int : String → Result ℕ

-- Which store is built.
pub data Backend : Type 0 where
  memory : Backend
  redis : (url : String) (ttl_seconds : Option ℕ) → Backend

abbrev getenv_or : Option String → String → String
getenv_or none default = default
getenv_or (some value) default = value

abbrev int_setting : Process → Option String → Result (Option ℕ)
int_setting process none = ok none
int_setting process (some value) =
    if is_empty (strip value) then ok none else process.parse_int value >>= λ n. ok (some n)

unfoldable pub optional_int_env : Process → String → Result (Option ℕ)
unfolding strip
optional_int_env process name = int_setting process (process.getenv name)

abbrev redis_store : Process → Option String → Result Backend
redis_store process none =
    err (runtime_error "REDIS_URL is required when AGENT_SERVICE_STATE_BACKEND=redis")
redis_store process (some url) = do
  guard (not (is_empty url))
      (runtime_error "REDIS_URL is required when AGENT_SERVICE_STATE_BACKEND=redis")
  ttl_seconds ← optional_int_env process "AGENT_SERVICE_STORE_TTL_SECONDS"
  ok (redis url ttl_seconds)

abbrev memory_store : Process → Result Backend
memory_store process = do
  guard (opt_eq (process.getenv "AGENT_SERVICE_ENABLE_TEST_MEMORY_STATE") (some "true"))
      (runtime_error "AGENT_SERVICE_STATE_BACKEND=memory is only available for explicit tests")
  ok memory

unfoldable pub build_agent_service_store : Process → Result Backend
unfolding optional_int_env strip
build_agent_service_store process = do
  let backend =
      process.lower (strip (getenv_or (process.getenv "AGENT_SERVICE_STATE_BACKEND") "redis"))
  guard (backend == "memory" || backend == "redis")
      (runtime_error "AGENT_SERVICE_STATE_BACKEND must be memory or redis")
  if backend == "memory"
      then memory_store process
      else redis_store process (process.getenv "REDIS_URL")
