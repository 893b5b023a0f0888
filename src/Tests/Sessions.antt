-- ===== src/Tests/Sessions.antt =====
-- The session state store at a small database: a map from keys to texts, and a state that is its
-- version, written in unary.
use Prim.Native.String.{[], ◌∷◌}
use user_delegated_auth_serv.Base.{
  ℕ, zero, suc, ◌+◌, ◌<◌, String, ◌≡◌, refl, Bool, true, false, Option, none, some, [], ◌∷◌, Result,
  ok, err, session_state_not_found_error, session_state_version_conflict_error, value_error, lookup,
  insert, string_eq, nat_eq, if◌then◌else◌, arith, ◌↔◌, Bool-cases, inl, inr,
}
use user_delegated_auth_serv.SessionState.Redis.{
  Key, Redis, Round, ModelType, Objects, Watches, IsDatabase, decode_json_blob, Blob, text,
}
use user_delegated_auth_serv.SessionState.RedisStore.{update_json_model, get_state}
use user_delegated_auth_serv.SessionState.RedisStore.Rounds.{update_json_model_returns}
use user_delegated_auth_serv.SessionState.RedisStore.Versions.{
  KeepsVersion, Expects, update_json_model-version, update_json_model_once,
}

abbrev pub key_eq : Key → Key → Bool
key_eq [] [] = true
key_eq (a ∷ k) (b ∷ l) = if nat_eq a b then key_eq k l else false
key_eq _ _ = false

pub key_eq_iff : (k l : Key) → (key_eq k l ≡ true) ↔ (k ≡ l)
key_eq_iff [] [] = ground arith
key_eq_iff [] (b ∷ l) = ground arith
key_eq_iff (a ∷ k) [] = ground arith
key_eq_iff (a ∷ k) (b ∷ l) = ground (arith, key_eq_iff k l)

abbrev pub Database : Type 0
Database = Key → Option Blob

abbrev pub database : Redis Database
database = record {
  get = λ key d. d key;
  set = λ key value ex d. λ other. if key_eq key other then some (text value) else d other;
  rpush = λ key value d. d;
  expire = λ key seconds d. d;
  utf8_decode = λ raw. err (value_error "not text");
}

pub database-IsDatabase : IsDatabase database
unfolding decode_json_blob
database-IsDatabase = record {
  get-set_self = λ key value ex d. (text value, rw ((key_eq_iff key key).1 refl) refl, refl);
  get-set_other = λ key other value ex d differs. elim (Bool-cases (key_eq key other)) [
    | inl same ↦ absurd (differs ((key_eq_iff key other).0 same))
    | inr apart ↦ rw apart refl
  ];
}

abbrev unary : ℕ → String
unary zero = []
unary (suc n) = String.◌∷◌ "v" (unary n)

abbrev counted : String → ℕ
counted [] = zero
counted (String.◌∷◌ c s) = suc (counted s)

counted-unary : (n : ℕ) → counted (unary n) ≡ n
counted-unary zero = refl
counted-unary (suc n) = omega (arith, counted-unary n)

abbrev version_object : Option ℕ → Result ℕ
version_object none = err (value_error "version")
version_object (some n) = ok n

abbrev model : ModelType ℕ ℕ
model = record {
  model_validate_json = λ s. ok (counted s);
  model_dump_json = unary;
  model_dump = λ n. ("version", n) ∷ [];
  model_validate = λ payload. version_object (lookup "version" payload);
}

abbrev numbers : Objects ℕ
numbers = record { as_int = some; of_int = λ n. n; of_datetime = λ n. n }

model-KeepsVersion : KeepsVersion numbers model (λ n. n)
unfolding lookup
model-KeepsVersion = record {
  as_int-of_int = λ n. refl;
  lookup-model_dump = λ m. refl;
  version-model_validate = λ payload n m found e. ground arith;
  version-model_validate_json = λ m. (counted (unary m), refl, counted-unary m);
}

abbrev state_key : Key
state_key = 115 ∷ []

-- The first transaction is aborted: another client has written version 2.
abbrev contended : ℕ → Round Database
contended i = record {
  until_get = λ d. d;
  until_execute = λ d. if nat_eq i 0 then database.set state_key (unary 2) none d else d;
  is_aborted = nat_eq i 0;
  now = i;
}

contended-Watches : Watches database contended state_key
contended-Watches zero d h = cc
contended-Watches (suc i) d h = ground arith

abbrev start : Database
start = database.set state_key (unary 1) none (λ key. none)

abbrev update : Option ℕ → ℕ → Database → Option (Result ℕ × Database)
update expected fuel =
    update_json_model database numbers model state_key (("version", 9) ∷ []) expected
      session_state_not_found_error none contended fuel 0

abbrev reread : Database
reread = database.set state_key (unary 2) none start

-- The mutation cannot set the version, and the second round starts from version 2.
update_runs : update none 2 start ≡ some (ok 3, database.set state_key (unary 3) none reread)
unfolding update_json_model lookup insert
update_runs = refl

update_json_model_returns_example :
    (r : Result ℕ × Database) × ((fuel : ℕ) → 1 < fuel → update none fuel start ≡ some r)
update_json_model_returns_example =
    update_json_model_returns database numbers model state_key (("version", 9) ∷ []) none
      session_state_not_found_error none contended 1 0 start refl

update_json_model-version_example :
    (before : Database) × (current : ℕ) × (get_state database numbers model state_key
        session_state_not_found_error before
      ≡ ok current)
    × Expects none current
    × (◌≡◌ {A = ℕ} 3 (current + 1))
    × (database.set state_key (unary 3) none reread ≡ database.set state_key (unary 3) none before)
update_json_model-version_example =
    update_json_model-version database numbers model (λ n. n) model-KeepsVersion state_key
      (("version", 9) ∷ []) session_state_not_found_error none none contended 2 0 start
      (database.set state_key (unary 3) none reread) 3 contended-Watches update_runs

update_for_two :
    update (some 2) 2 reread
    ≡ some
        (ok 3, database.set state_key (unary 3) none (database.set state_key (unary 2) none reread))
unfolding update_json_model lookup insert
update_for_two = refl

abbrev updated : Database
updated = database.set state_key (unary 3) none (database.set state_key (unary 2) none reread)

update_json_model_once_example :
    update (some 2) 1 updated ≡ some (err (session_state_version_conflict_error 2 3), updated)
update_json_model_once_example =
    update_json_model_once database numbers model (λ n. n) model-KeepsVersion state_key
      session_state_not_found_error none (("version", 9) ∷ []) (("version", 9) ∷ []) 2 contended
      contended 2 0 reread updated 3 database-IsDatabase contended-Watches update_for_two refl
