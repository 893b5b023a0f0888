-- ===== src/SessionState/RedisStore.antt =====
-- packages/session_state/session_state/redis_store.py. What other clients do in between is a
-- sequence of rounds; the update's loop takes the count of rounds that it may use as fuel.
pub mod Rounds
pub mod Versions
use user_delegated_auth_serv.Base.{
  ℕ, zero, suc, ◌+◌, String, ◌≡◌, Bool, true, false, Option, none, some, List, [], ◌∷◌, Result, ok,
  err, ◌>>=◌, ◌>>◌, guard, Exception, session_state_store_error, session_state_not_found_error,
  workflow_state_not_found_error, session_state_version_conflict_error, Table, lookup, insert,
  string_eq, nat_eq, is_empty, if◌then◌else◌,
}
use user_delegated_auth_serv.SessionState.Keys.{
  build_session_key, build_workflow_key, build_session_events_key, build_workflow_events_key,
}
use user_delegated_auth_serv.SessionState.Models.{SessionState, WorkflowState}
use user_delegated_auth_serv.SessionState.Redis.{
  Key, Blob, Redis, decode_json_blob, Round, ModelType, Objects,
}

-- `SessionIdentity`
pub record SessionIdentity : Type 0 where
  pub tenant_id : Option String
  pub user_id : String
  pub session_id : String

-- `WorkflowEventLike`: its workflow, and its JSON without the fields that are `None`.
pub record WorkflowEventLike : Type 0 where
  pub workflow_id : Option String
  pub json : String

-- The settings of the store.
pub record Settings : Type 0 where
  pub key_prefix : String
  pub ttl_seconds : Option ℕ
  pub event_ttl_seconds : Option ℕ

-- `_resolve_ttl`
unfoldable pub resolve_ttl : Settings → Option ℕ → Option ℕ
resolve_ttl settings none = settings.ttl_seconds
resolve_ttl settings (some ttl_seconds) = some ttl_seconds

-- `_session_key`
unfoldable pub session_key : Settings → SessionIdentity → Result Key
session_key settings ctx =
    build_session_key settings.key_prefix ctx.tenant_id ctx.user_id ctx.session_id

-- `_workflow_key`
unfoldable pub workflow_key : Settings → SessionIdentity → String → Result Key
workflow_key settings ctx workflow_id =
    build_workflow_key settings.key_prefix ctx.tenant_id ctx.user_id ctx.session_id workflow_id

-- `payload.update(mutation)`
unfoldable pub update_all {ℓ} : {V : Type ℓ} → Table String V → Table String V → Table String V
unfolding insert
update_all payload [] = payload
update_all payload ((key, value) ∷ mutation) = update_all (insert key value payload) mutation

-- A state model with its identity, where it is stored.
abbrev pub session_identity : SessionState → SessionIdentity
session_identity state = record {
  tenant_id = state.tenant_id;
  user_id = state.user_id;
  session_id = state.session_id;
}

abbrev pub workflow_identity : WorkflowState → SessionIdentity
workflow_identity state = record {
  tenant_id = state.tenant_id;
  user_id = state.user_id;
  session_id = state.session_id;
}

module _ {D V M : Type 0} (redis : Redis D) (objects : Objects V) (model : ModelType V M) where
  abbrev read_version : Key → Option ℕ → Result ℕ
  read_version key none = err (session_state_store_error key)
  read_version key (some version) = ok version

  abbrev pub version_object : Option V → Option ℕ
  version_object none = none
  version_object (some value) = objects.as_int value

  abbrev pub check_version : Option ℕ → ℕ → Result (Unit {0})
  check_version none found = ok tt
  check_version (some expected) found =
      guard (nat_eq found expected) (session_state_version_conflict_error expected found)

  -- The payload that is validated: the mutation over the current one, with its own version and time.
  unfoldable pub next_payload : Table String V → Table String V → ℕ → ℕ → Table String V
  unfolding update_all insert
  next_payload payload mutation current_version now =
      insert "updated_at" (objects.of_datetime now)
        (insert "version" (objects.of_int (current_version + 1)) (update_all payload mutation))

  -- The stored blob as a state.
  abbrev pub parsed : (Key → Exception) → Key → Option Blob → Result M
  parsed not_found key none = err (not_found key)
  parsed not_found key (some raw) = do
    json ← decode_json_blob redis raw
    model.model_validate_json json

  -- From the current state to the one that is written.
  unfoldable pub advance : Key → Table String V → Option ℕ → ℕ → M → Result M
  unfolding next_payload lookup
  advance key mutation expected_version now current = do
    let payload = model.model_dump current
    current_version ← read_version key (version_object (lookup "version" payload))
    check_version expected_version current_version
    model.model_validate (next_payload payload mutation current_version now)

  -- A round of `_update_json_model` between its GET and its MULTI.
  unfoldable pub next_state :
      Key → Table String V → Option ℕ → (Key → Exception) → ℕ → Option Blob → Result M
  unfolding advance decode_json_blob
  next_state key mutation expected_version not_found now raw =
      parsed not_found key raw >>= advance key mutation expected_version now

  module _ (key : Key) (mutation : Table String V) (expected_version : Option ℕ)
      (not_found : Key → Exception) (ttl_seconds : Option ℕ) (rounds : ℕ → Round D) where
    -- The end of a round: an error is raised, an aborted transaction goes round again.
    abbrev pub end_round : Option (Result M × D) → D → D → Bool → Result M → Option (Result M × D)
    end_round again found later is_aborted (err e) = some (err e, found)
    end_round again found later is_aborted (ok updated) =
        if is_aborted
        then again
        else some (ok updated, redis.set key (model.model_dump_json updated) ttl_seconds later)

    -- `_update_json_model` from round `i`; `none` when `fuel` rounds were not enough.
    unfoldable pub update_json_model : ℕ → ℕ → D → Option (Result M × D)
    unfolding next_state
    update_json_model zero i d = none
    update_json_model (suc fuel) i d =
        let found = (rounds i).until_get d in
        let later = (rounds i).until_execute found in
        end_round (update_json_model fuel (i + 1) later) found later ((rounds i).is_aborted)
          (next_state key mutation expected_version not_found (rounds i).now (redis.get key found))

  -- The reading of `get_session` and of `get_workflow`.
  unfoldable pub get_state : Key → (Key → Exception) → D → Result M
  unfolding decode_json_blob
  get_state key not_found d = parsed not_found key (redis.get key d)

module _ {D V : Type 0} (redis : Redis D) (objects : Objects V) (settings : Settings)
    (sessions : ModelType V SessionState) (workflows : ModelType V WorkflowState) where
  unfoldable pub get_session : SessionIdentity → D → Result SessionState
  unfolding get_state session_key
  get_session ctx d = do
    key ← session_key settings ctx
    get_state redis objects sessions key session_state_not_found_error d

  unfoldable pub set_session : SessionState → Option ℕ → D → Result D
  unfolding session_key resolve_ttl
  set_session state ttl_seconds d = do
    key ← session_key settings (session_identity state)
    ok (redis.set key (sessions.model_dump_json state) (resolve_ttl settings ttl_seconds) d)

  abbrev with_key :
      {M : Type 0} → Result Key → (Key → Option (Result M × D)) → D → Option (Result M × D)
  with_key (err e) update d = some (err e, d)
  with_key (ok key) update d = update key

  unfoldable pub update_session :
      SessionIdentity
      → Table String V
      → Option ℕ
      → (ℕ → Round D)
      → ℕ
      → D
      → Option (Result SessionState × D)
  unfolding update_json_model session_key
  update_session ctx mutation expected_version rounds fuel d =
      with_key (session_key settings ctx)
        (λ key.
          update_json_model redis objects sessions key mutation expected_version
            session_state_not_found_error settings.ttl_seconds rounds fuel 0 d)
        d

  abbrev events_key : SessionIdentity → Option String → Result Key
  events_key ctx none =
      build_session_events_key settings.key_prefix ctx.tenant_id ctx.user_id ctx.session_id
  events_key ctx (some workflow_id) =
      if is_empty workflow_id
      then build_session_events_key settings.key_prefix ctx.tenant_id ctx.user_id ctx.session_id
      else build_workflow_events_key settings.key_prefix ctx.tenant_id ctx.user_id ctx.session_id
          workflow_id

  abbrev expire_events : Key → Option ℕ → D → D
  expire_events key none d = d
  expire_events key (some seconds) d = redis.expire key seconds d

  unfoldable pub append_workflow_event : SessionIdentity → WorkflowEventLike → D → Result D
  append_workflow_event ctx event d = do
    key ← events_key ctx event.workflow_id
    ok (expire_events key settings.event_ttl_seconds (redis.rpush key event.json d))

  unfoldable pub get_workflow : SessionIdentity → String → D → Result WorkflowState
  unfolding get_state workflow_key
  get_workflow ctx workflow_id d = do
    key ← workflow_key settings ctx workflow_id
    get_state redis objects workflows key workflow_state_not_found_error d

  unfoldable pub set_workflow : WorkflowState → Option ℕ → D → Result D
  unfolding workflow_key resolve_ttl
  set_workflow state ttl_seconds d = do
    key ← workflow_key settings (workflow_identity state) state.workflow_id
    ok (redis.set key (workflows.model_dump_json state) (resolve_ttl settings ttl_seconds) d)

  unfoldable pub update_workflow :
      SessionIdentity
      → String
      → Table String V
      → Option ℕ
      → (ℕ → Round D)
      → ℕ
      → D
      → Option (Result WorkflowState × D)
  unfolding update_json_model workflow_key
  update_workflow ctx workflow_id mutation expected_version rounds fuel d =
      with_key (workflow_key settings ctx workflow_id)
        (λ key.
          update_json_model redis objects workflows key mutation expected_version
            workflow_state_not_found_error settings.ttl_seconds rounds fuel 0 d)
        d
