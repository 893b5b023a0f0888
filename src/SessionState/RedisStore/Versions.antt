-- ===== src/SessionState/RedisStore/Versions.antt =====
-- packages/session_state/session_state/redis_store.py: the versions of the stored states.
use user_delegated_auth_serv.Base.{
  ℕ, suc, ◌+◌, String, ◌≡◌, ◌≢◌, refl, Option, none, some, ok, err, Exception,
  session_state_version_conflict_error, Table, lookup, insert, lookup-insert, guard-eq-ok,
  >>=-eq-ok, string_eq, arith, ◌∙◌,
}
use user_delegated_auth_serv.SessionState.Redis.{
  Key, Redis, Round, ModelType, Objects, Watches, IsDatabase,
}
use user_delegated_auth_serv.SessionState.RedisStore.{
  update_json_model, next_state, get_state, check_version, next_payload, advance, version_object,
  update_all,
}
use user_delegated_auth_serv.SessionState.RedisStore.Rounds.{found_at, update_json_model-Finished}

-- How a model's version stands in its dumped payload and in its JSON.
pub record KeepsVersion {V M : Type 0} (objects : Objects V) (model : ModelType V M)
    (version : M → ℕ) : Type 0 where
  pub as_int-of_int : (n : ℕ) → objects.as_int (objects.of_int n) ≡ some n
  pub lookup-model_dump :
      (m : M) → lookup "version" (model.model_dump m) ≡ some (objects.of_int (version m))
  pub version-model_validate :
      (payload : Table String V) (n : ℕ) (m : M)
      → lookup "version" payload ≡ some (objects.of_int n)
      → model.model_validate payload ≡ ok m
      → version m ≡ n
  pub version-model_validate_json :
      (m : M)
      → (m' : M) × (model.model_validate_json (model.model_dump_json m) ≡ ok m')
        × (version m' ≡ version m)

-- The given version, if any, is the one found.
abbrev pub Expects : Option ℕ → ℕ → Type 0
Expects none found = Unit
Expects (some expected) found = found ≡ expected

module _ {D V M : Type 0} (redis : Redis D) (objects : Objects V) (model : ModelType V M)
    (version : M → ℕ) (keeps : KeepsVersion objects model version) (key : Key)
    (mutation : Table String V) (not_found : Key → Exception) where
  check_version_lem :
      (expected : Option ℕ) (found : ℕ)
      → check_version redis objects model expected found ≡ ok tt
      → Expects expected found
  check_version_lem none found h = tt
  check_version_lem (some expected) found h = ground (arith, guard-eq-ok _ _ h)

  lookup-next_payload :
      (payload : Table String V) (n now : ℕ)
      → lookup "version" (next_payload redis objects model payload mutation n now)
        ≡ some (objects.of_int (n + 1))
  unfolding next_payload
  lookup-next_payload payload n now =
      lookup-insert "updated_at" "version" (objects.of_datetime now)
        (insert "version" (objects.of_int (n + 1)) (update_all payload mutation))
      ∙ lookup-insert "version" "version" (objects.of_int (n + 1)) (update_all payload mutation)

  -- From a state of some version the next one has the next version, and only if that was expected.
  advance_lem :
      (expected : Option ℕ) (now : ℕ) (current m : M)
      → advance redis objects model key mutation expected now current ≡ ok m
      → Expects expected (version current) × (version m ≡ version current + 1)
  unfolding advance
  advance_lem expected now current m e =
      let found : ◌≡◌ {A = Option ℕ}
          (version_object redis objects model (lookup "version" (model.model_dump current)))
          (some (version current)) =
        rw (keeps.lookup-model_dump current) (keeps.as_int-of_int (version current)) in
      let (u, checked, validated) =
        >>=-eq-ok (check_version redis objects model expected (version current)) _
          (rw found at e) in
      (
        check_version_lem expected (version current) checked,
        keeps.version-model_validate _ _ m
            (lookup-next_payload (model.model_dump current) (version current) now) validated,
      )

  -- The state that a round read, from the database that it found.
  next_state_lem :
      (expected : Option ℕ) (now : ℕ) (d : D) (m : M)
      → next_state redis objects model key mutation expected not_found now (redis.get key d) ≡ ok m
      → (current : M) × (get_state redis objects model key not_found d ≡ ok current)
        × Expects expected (version current)
        × (version m ≡ version current + 1)
  unfolding next_state get_state
  next_state_lem expected now d m e =
      let (current, read, advanced) = >>=-eq-ok _ _ e in
      let (expects, next) = advance_lem expected now current m advanced in
      (current, read, expects, next)

  get_state_of_same :
      (d d' : D)
      → redis.get key d ≡ redis.get key d'
      → get_state redis objects model key not_found d
        ≡ get_state redis objects model key not_found d'
  unfolding get_state
  get_state_of_same d d' e = rw e refl

  module _ (expected ttl_seconds : Option ℕ) (rounds : ℕ → Round D) (fuel i : ℕ) (d d' : D)
      (m : M) where
    -- An update that returns a state has written it over a state whose version is one less, and is the
    -- version given, if one is given, when WATCH works as documented.
    pub update_json_model-version :
        Watches redis rounds key
        → update_json_model redis objects model key mutation expected not_found ttl_seconds rounds
            fuel i d
          ≡ some (ok m, d')
        → (before : D) × (current : M) × (get_state redis objects model key not_found before
            ≡ ok current)
          × Expects expected (version current)
          × (version m ≡ version current + 1)
          × (d' ≡ redis.set key (model.model_dump_json m) ttl_seconds before)
    update_json_model-version w e =
        let (k, j, _, c) =
          update_json_model-Finished redis objects model key mutation expected not_found ttl_seconds
            rounds fuel i d (ok m, d') w e in
        let found =
          found_at redis objects model key mutation expected not_found ttl_seconds rounds j k i d in
        let (current, read, expects, next) =
          next_state_lem expected (rounds j).now found m c.next in
        (
          (rounds j).until_execute found,
          current,
          get_state_of_same _ _ c.unchanged ∙ read,
          expects,
          next,
          c.written,
        )

module _ {D V M : Type 0} (redis : Redis D) (objects : Objects V) (model : ModelType V M)
    (version : M → ℕ) (keeps : KeepsVersion objects model version) (key : Key)
    (not_found : Key → Exception) (ttl_seconds : Option ℕ) where
  stale_advance :
      (mutation : Table String V) (expected now : ℕ) (current : M)
      → version current ≢ expected
      → advance redis objects model key mutation (some expected) now current
        ≡ err (session_state_version_conflict_error expected (version current))
  unfolding advance
  stale_advance mutation expected now current differs =
      rw (keeps.lookup-model_dump current, keeps.as_int-of_int (version current)) (ground arith)

  -- An update of a missing state raises the error given for that, and an update for another version
  -- than the stored one raises a conflict with both versions. Both are raised in the first round, and
  -- write nothing.
  pub update_json_model_refuses :
      (mutation : Table String V) (expected_version : Option ℕ) (rounds : ℕ → Round D) (fuel i : ℕ)
      (d : D)
      → (redis.get key ((rounds i).until_get d) ≡ none
          → update_json_model redis objects model key mutation expected_version not_found
              ttl_seconds rounds
              (suc fuel)
              i
              d
            ≡ some (err (not_found key), (rounds i).until_get d))
        × ((current : M) (expected : ℕ)
            → get_state redis objects model key not_found ((rounds i).until_get d) ≡ ok current
            → expected_version ≡ some expected
            → version current ≢ expected
            → update_json_model redis objects model key mutation expected_version not_found
                ttl_seconds rounds
                (suc fuel)
                i
                d
              ≡ some (
                err (session_state_version_conflict_error expected (version current)),
                (rounds i).until_get d,
              ))
  unfolding update_json_model next_state get_state
  update_json_model_refuses mutation expected_version rounds fuel i d = (
    λ missing. rw missing refl,
    λ current expected read given differs.
        rw (read, given, stale_advance mutation expected (rounds i).now current differs) refl,
  )

  -- Of two updates for one version at most one takes effect: after an update for version `v` has
  -- returned, another one for `v` that finds the key as the first one left it raises a version conflict
  -- and writes nothing.
  pub update_json_model_once :
      (mutation mutation' : Table String V) (v : ℕ) (rounds rounds' : ℕ → Round D) (fuel fuel' : ℕ)
      (d d' : D) (m : M)
      → IsDatabase redis
      → Watches redis rounds key
      → update_json_model redis objects model key mutation
          (some v)
          not_found
          ttl_seconds
          rounds
          fuel
          0
          d
        ≡ some (ok m, d')
      → redis.get key ((rounds' 0).until_get d') ≡ redis.get key d'
      → update_json_model redis objects model key mutation'
          (some v)
          not_found
          ttl_seconds
          rounds'
          (suc fuel')
          0
          d'
        ≡ some (err (session_state_version_conflict_error v (v + 1)), (rounds' 0).until_get d')
  unfolding get_state
  update_json_model_once mutation mutation' v rounds rounds' fuel fuel' d d' m database w e quiet =
      let (before, current, read, expects, next, written) =
        update_json_model-version redis objects model version keeps key mutation not_found (some v)
          ttl_seconds rounds fuel 0 d d' m w e in
      let (raw, stored, decodes) =
        database.get-set_self key (model.model_dump_json m) ttl_seconds before in
      let (m', parses, same) = keeps.version-model_validate_json m in
      let found : redis.get key ((rounds' 0).until_get d') ≡ some raw =
        quiet ∙ (rw written stored) in
      let refused = update_json_model_refuses mutation' (some v) rounds' fuel' 0 d' in
      let newer : version m' ≡ v + 1 = omega arith in
      rw (← newer) (refused.1 m' v (rw (found, decodes) parses) refl (omega arith))
