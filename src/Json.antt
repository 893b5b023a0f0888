-- ===== src/Json.antt =====
-- Values of the Python services: what `json.loads` returns and what `model_dump` produces.
-- An object keeps its keys in insertion order, as `dict` does. A float is
-- finite; integers are unbounded.
pub mod Equality
pub mod Dumps
pub mod Strip
use user_delegated_auth_serv.Base.{
  ℕ, String, Bool, true, false, Option, none, some, List, [], ◌∷◌, ◌==◌, not, ◌&&◌, nat_eq,
  is_empty, if◌then◌else◌,
}

-- `negsuc n` is -(n + 1).
pub data ℤ : Type 0 where
  pos : ℕ → ℤ
  negsuc : ℕ → ℤ

-- A float: the text that `str` gives for it, and its exact value, the pair of `as_integer_ratio()`.
pub record Float : Type 0 where
  pub text : String
  pub numerator : ℤ
  pub denominator : ℕ

mutual
  pub data Json : Type 0 where
    null : Json
    bool : Bool → Json
    int : ℤ → Json
    float : Float → Json
    str : String → Json
    arr : Items → Json
    obj : Fields → Json

  pub data Items : Type 0 where
    nil : Items
    cons : Json → Items → Items

  pub data Fields : Type 0 where
    end : Fields
    field : String → Json → Fields → Fields

-- `payload.get(key)`
unfoldable pub get : String → Fields → Option Json
get key end = none
get key (field k v fs) = if k == key then some v else get key fs

-- `payload[key] = value`: an old key keeps its place.
unfoldable pub put : String → Json → Fields → Fields
put key value end = field key value end
put key value (field k v fs) = if k == key then field k value fs else field k v (put key value fs)

-- `list(payload)`
unfoldable pub keys : Fields → List String
keys end = []
keys (field k v fs) = k ∷ keys fs

unfoldable pub items : Items → List Json
items nil = []
items (cons v vs) = v ∷ items vs

-- `[value for value in values]` of texts, as a value
unfoldable pub strings : List String → Items
strings [] = nil
strings (s ∷ ss) = cons (str s) (strings ss)

abbrev pub nullable : Option String → Json
nullable none = null
nullable (some s) = str s

-- `bool(value)` of an object
abbrev pub is_true : Option Json → Bool
is_true (some (bool true)) = true
is_true _ = false

abbrev is_nonzero : ℤ → Bool
is_nonzero (pos n) = not (nat_eq n 0)
is_nonzero (negsuc n) = true

-- `bool(value)`
unfoldable pub truthy : Json → Bool
truthy null = false
truthy (bool b) = b
truthy (int n) = is_nonzero n
truthy (float x) = is_nonzero x.numerator
truthy (str s) = not (is_empty s)
truthy (arr nil) = false
truthy (arr (cons v vs)) = true
truthy (obj end) = false
truthy (obj (field k v fs)) = true
