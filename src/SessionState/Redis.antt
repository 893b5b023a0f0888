-- ===== src/SessionState/Redis.antt =====
-- What the two Redis-backed stores take from the Redis client and from pydantic. The database is any
-- type; a key is the list of its code points.
use user_delegated_auth_serv.Base.{
  ℕ, String, ◌≡◌, Bool, false, Option, some, List, Result, ok, Table,
}

abbrev pub Key : Type 0
Key = List ℕ

-- `bytes | str`
pub data Blob : Type 0 where
  bytes : List ℕ → Blob
  text : String → Blob

-- The commands, and `bytes.decode("utf-8")`; the number given to `set` is `ex`.
pub record Redis (D : Type 0) : Type 0 where
  pub get : Key → D → Option Blob
  pub set : Key → String → Option ℕ → D → D
  pub rpush : Key → String → D → D
  pub expire : Key → ℕ → D → D
  pub utf8_decode : List ℕ → Result String

-- `_decode_json_blob`, the same function in redis_store.py and in the agent service's state.py
abbrev decoded : (List ℕ → Result String) → Blob → Result String
decoded decode (bytes raw) = decode raw
decoded decode (text raw) = ok raw

module _ {D : Type 0} (redis : Redis D) where
  unfoldable pub decode_json_blob : Blob → Result String
  decode_json_blob raw = decoded redis.utf8_decode raw

  -- What is set under a key is read there, and the other keys keep their values.
  pub record IsDatabase : Type 0 where
    pub get-set_self :
        (key : Key) (value : String) (ex : Option ℕ) (d : D)
        → (raw : Blob) × (redis.get key (redis.set key value ex d) ≡ some raw)
          × (decode_json_blob raw ≡ ok value)
    pub get-set_other :
        (key other : Key) (value : String) (ex : Option ℕ) (d : D)
        → ((key ≡ other) → ⊥)
        → redis.get other (redis.set key value ex d) ≡ redis.get other d

-- What the other clients do during one round of an optimistic transaction, up to the GET and from
-- there to the EXEC; whether EXEC aborts (`WatchError`); and the reading of the clock.
pub record Round (D : Type 0) : Type 0 where
  pub until_get : D → D
  pub until_execute : D → D
  pub is_aborted : Bool
  pub now : ℕ

-- WATCH: a transaction is executed only if the watched key has not changed.
abbrev pub Watches : {D : Type 0} → Redis D → (ℕ → Round D) → Key → Type 0
Watches {D} redis rounds key =
    (i : ℕ) (d : D)
    → (rounds i).is_aborted ≡ false
    → redis.get key ((rounds i).until_execute d) ≡ redis.get key d

-- A pydantic model with its methods. `V` is the type of the objects in a dumped model.
pub record ModelType (V M : Type 0) : Type 0 where
  pub model_validate_json : String → Result M
  pub model_dump_json : M → String
  pub model_dump : M → Table String V
  pub model_validate : Table String V → Result M

-- Numbers and instants as objects; `as_int` is the number, if the object is an `int`.
pub record Objects (V : Type 0) : Type 0 where
  pub as_int : V → Option ℕ
  pub of_int : ℕ → V
  pub of_datetime : ℕ → V
