-- ===== src/Base/Outcome.antt =====
-- Exceptions of the services, and computations that may raise one.
use Prim.Native.Nat.{ℕ}
use Prim.Native.String.{String}
use mathlib.Core.Path.{◌≡◌, refl}
use mathlib.Core.Logic.{◌↔◌, ◌⊎◌, inl, inr}
use mathlib.Core.List.{List, [], ◌∷◌}
use user_delegated_auth_serv.Base.Tests.{All}
use mathlib.Core.Bool.{Bool, true, false}

-- The classes that the code raises or catches, with their texts, or what a text names: the key of a
-- state, given by its code points, or the two versions. `external` is any exception of a
-- library, with its class name and its text.
pub data Exception : Type 0 where
  http_exception : (status_code : ℕ) (detail : String) → Exception
  http_status_error : (status_code : ℕ) → Exception
  http_error : (class_name : String) → Exception
  internal_auth_error : String → Exception
  execution_grant_error : String → Exception
  scope_materialization_error : String → Exception
  workflow_execution_error : String → Exception
  value_error : String → Exception
  key_error : String → Exception
  lookup_error : String → Exception
  runtime_error : String → Exception
  session_state_store_error : (key : List ℕ) → Exception
  session_state_not_found_error : (key : List ℕ) → Exception
  workflow_state_not_found_error : (key : List ℕ) → Exception
  session_state_version_conflict_error : (expected found : ℕ) → Exception
  external : (class_name text : String) → Exception

-- What a computation comes to.
pub data Result {ℓ} (A : Type ℓ) : Type ℓ where
  err : (raised : Exception) → Result A
  ok : (value : A) → Result A

-- `if not b: raise e`
abbrev pub guard : Bool → Exception → Result (Unit {0})
guard false e = err e
guard true e = ok tt

module _ {ℓ κ} {A : Type ℓ} {B : Type κ} where
  infixl 5 ◌>>=◌
  -- What follows a computation is reached only if that returns.
  abbrev pub ◌>>=◌ : Result A → (A → Result B) → Result B
  err raised >>= next = err raised
  ok value >>= next = next value

  pub >>=-eq-ok :
      (r : Result A) (next : A → Result B) {b : B}
      → (r >>= next) ≡ ok b
      → (value : A) × (r ≡ ok value) × (next value ≡ ok b)
  >>=-eq-ok (err raised) next e = cc
  >>=-eq-ok (ok value) next e = (value, refl, e)

module _ {ℓ} {B : Type ℓ} where
  infixl 5 ◌>>◌
  abbrev pub ◌>>◌ : Result (Unit {0}) → Result B → Result B
  check >> rest = check >>= λ nothing. rest

-- Checks made one after the other, up to the first that raises.
abbrev pub in_order : List (Result (Unit {0})) → Result (Unit {0})
in_order [] = ok tt
in_order (r ∷ []) = r
in_order (r ∷ s ∷ rs) = r >> in_order (s ∷ rs)

-- They succeed exactly when each of them does.
pub in_order_iff : (rs : List (Result (Unit {0}))) → (in_order rs ≡ ok tt) ↔ All (λ r. r ≡ ok tt) rs
in_order_iff [] = (λ e. tt, λ h. refl)
in_order_iff (r ∷ []) = (λ e. (e, tt), λ h. h.0)
in_order_iff (ok tt ∷ s ∷ rs) =
    let ih = in_order_iff (s ∷ rs) in (λ e. (refl, ih.0 e), λ h. ih.1 h.1)
in_order_iff (err x ∷ s ∷ rs) = (λ e. cc, λ h. cc (h.0))

pub Result-cases {ℓ} :
    {A : Type ℓ} (r : Result A) → ((e : Exception) × (r ≡ err e)) ⊎ ((a : A) × (r ≡ ok a))
Result-cases (err e) = inl (e, refl)
Result-cases (ok a) = inr (a, refl)

-- A check before a value: both the check and the value are read back.
pub >>-eq-ok_value {ℓ} :
    {A : Type ℓ} (m : Result (Unit {0})) (v w : A) → ((m >> ok v) ≡ ok w) ↔ ((m ≡ ok tt) × (w ≡ v))
>>-eq-ok_value (ok tt) v w = (λ h. (refl, cc), λ h. cc (h.1))
>>-eq-ok_value (err e) v w = (λ h. cc, λ h. cc (h.0))

pub guard-ok : (b : Bool) (e : Exception) → b ≡ true → guard b e ≡ ok tt
guard-ok b e h = rw h

pub guard-eq-ok : (b : Bool) (e : Exception) {u : Unit {0}} → guard b e ≡ ok u → b ≡ true
guard-eq-ok true e h = refl
guard-eq-ok false e h = cc

-- `exc.__class__.__name__`
abbrev pub class_name_of : Exception → String
class_name_of (http_exception status_code detail) = "HTTPException"
class_name_of (http_status_error status_code) = "HTTPStatusError"
class_name_of (http_error class_name) = class_name
class_name_of (internal_auth_error text) = "InternalAuthError"
class_name_of (execution_grant_error text) = "ExecutionGrantError"
class_name_of (scope_materialization_error text) = "ScopeMaterializationError"
class_name_of (workflow_execution_error text) = "WorkflowExecutionError"
class_name_of (value_error text) = "ValueError"
class_name_of (key_error text) = "KeyError"
class_name_of (lookup_error text) = "LookupError"
class_name_of (runtime_error text) = "RuntimeError"
class_name_of (session_state_store_error key) = "SessionStateStoreError"
class_name_of (session_state_not_found_error key) = "SessionStateNotFoundError"
class_name_of (workflow_state_not_found_error key) = "WorkflowStateNotFoundError"
class_name_of (session_state_version_conflict_error expected found) =
    "SessionStateVersionConflictError"
class_name_of (external class_name text) = class_name

module _ {ℓ} {A : Type ℓ} where
  -- What an outcome is: an exception that `E` holds of, or a value that `P` holds of.
  abbrev pub Comes : (Exception → Type 0) → (A → Type 0) → Result A → Type 0
  Comes E P (err e) = E e
  Comes E P (ok a) = P a

  pub Comes-weaken :
      (E F : Exception → Type 0) (P : A → Type 0) (r : Result A)
      → ((e : Exception) → E e → F e)
      → Comes E P r
      → Comes F P r
  Comes-weaken E F P (err e) w h = w e h
  Comes-weaken E F P (ok a) w h = h

module _ {ℓ κ} {A : Type ℓ} {B : Type κ} where
  pub >>=-Comes :
      (E : Exception → Type 0) (P : A → Type 0) (Q : B → Type 0) (r : Result A)
      (next : A → Result B)
      → Comes E P r
      → ((a : A) → P a → Comes E Q (next a))
      → Comes E Q (r >>= next)
  >>=-Comes E P Q (err e) next h k = h
  >>=-Comes E P Q (ok a) next h k = k a h
