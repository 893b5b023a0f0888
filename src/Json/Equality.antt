-- ===== src/Json/Equality.antt =====
-- Python's `==` on values: objects are compared by key, and numbers by their exact values, so that
-- `True == 1 == 1.0` and `0.0 == -0.0`.
use user_delegated_auth_serv.Base.{
  ℕ, suc, String, ◌≡◌, refl, Bool, true, false, Option, none, some, arith, ◌&&◌, nat_eq, mem, ◌==◌,
  Bool-cases, inl, inr, eq_refl, if◌then◌else◌,
}
use user_delegated_auth_serv.Json.{
  ℤ, pos, negsuc, Json, null, bool, int, float, str, arr, obj, Items, nil, cons, Fields, end, field,
  get, keys,
}

-- The exact value of a number, a fraction in lowest terms, where a value is one.
as_ratio : Json → Option (ℤ × ℕ)
as_ratio (bool true) = some (pos 1, 1)
as_ratio (bool false) = some (pos 0, 1)
as_ratio (int n) = some (n, 1)
as_ratio (float x) = some (x.numerator, x.denominator)
as_ratio _ = none

int_eq : ℤ → ℤ → Bool
int_eq (pos m) (pos n) = nat_eq m n
int_eq (negsuc m) (negsuc n) = nat_eq m n
int_eq _ _ = false

same_number : Option (ℤ × ℕ) → Option (ℤ × ℕ) → Bool
unfolding int_eq
same_number (some (m, d)) (some (n, e)) = int_eq m n && nat_eq d e
same_number _ _ = false

abbrev count : Fields → ℕ
count end = 0
count (field k v fs) = suc (count fs)

abbrev holds : (Json → Bool) → Option Json → Bool
holds p none = false
holds p (some v) = p v

unfoldable mutual
  unfolding same_number as_ratio

  pub json_eq : Json → Json → Bool
  json_eq null null = true
  json_eq (str s) (str t) = s == t
  json_eq (arr xs) (arr ys) = items_eq xs ys
  json_eq (obj fs) (obj gs) = if nat_eq (count fs) (count gs) then within fs gs else false
  json_eq v w = same_number (as_ratio v) (as_ratio w)

  pub items_eq : Items → Items → Bool
  items_eq nil nil = true
  items_eq (cons x xs) (cons y ys) = if json_eq x y then items_eq xs ys else false
  items_eq xs ys = false

  -- Each field of the left object is in the right one with an equal value.
  pub within : Fields → Fields → Bool
  within end gs = true
  within (field k v fs) gs = if holds (json_eq v) (get k gs) then within fs gs else false

-- The keys of a `dict` are distinct, at every depth.
unfoldable mutual
  pub IsDistinct : Json → Type 0
  IsDistinct (arr xs) = AreDistinct xs
  IsDistinct (obj fs) = HasDistinct fs
  IsDistinct v = Unit

  pub AreDistinct : Items → Type 0
  AreDistinct nil = Unit
  AreDistinct (cons x xs) = IsDistinct x × AreDistinct xs

  pub HasDistinct : Fields → Type 0
  HasDistinct end = Unit
  HasDistinct (field k v fs) = (mem k (keys fs) ≡ false) × IsDistinct v × HasDistinct fs

both_weaken :
    (a b c : Bool)
    → (b ≡ true → c ≡ true)
    → (if a then b else false) ≡ true
    → (if a then c else false) ≡ true
both_weaken true b c f h = f h
both_weaken false b c f h = h

within-field :
    (fs gs : Fields) (k : String) (w : Json)
    → mem k (keys fs) ≡ false
    → within fs gs ≡ true
    → within fs (field k w gs) ≡ true
unfolding json_eq get keys
within-field end gs k w h e = refl
within-field (field j v fs) gs k w h e = elim (Bool-cases (k == j)) [
  | inl same ↦ cc (rw same at h)
  | inr other ↦
      rw other
        (both_weaken (holds (json_eq v) (get j gs)) _ _ (within-field fs gs k w (rw other at h)) e)
]

nat_eq_self : (n : ℕ) → nat_eq n n ≡ true
nat_eq_self n = ground arith

int_eq_self : (n : ℤ) → int_eq n n ≡ true
unfolding int_eq
int_eq_self (pos n) = ground arith
int_eq_self (negsuc n) = ground arith

-- Every value equals itself.
mutual
  unfolding json_eq get keys IsDistinct

  json_eq_self : (v : Json) → IsDistinct v → json_eq v v ≡ true
  json_eq_self null h = refl
  json_eq_self (bool true) h = refl
  json_eq_self (bool false) h = refl
  json_eq_self (int n) h = ground (arith, int_eq_self n)
  json_eq_self (float x) h = ground (arith, int_eq_self x.numerator, nat_eq_self x.denominator)
  json_eq_self (str s) h = eq_refl s
  json_eq_self (arr xs) h = items_eq_self xs h
  json_eq_self (obj fs) h = rw (nat_eq_self (count fs)) (within_self fs h)

  items_eq_self : (xs : Items) → AreDistinct xs → items_eq xs xs ≡ true
  items_eq_self nil h = refl
  items_eq_self (cons x xs) h = ground (arith, json_eq_self x h.0, items_eq_self xs h.1)

  within_self : (fs : Fields) → HasDistinct fs → within fs fs ≡ true
  within_self end h = refl
  within_self (field k v fs) h =
      rw (eq_refl k, json_eq_self v h.1) (within-field fs fs k v h.0 (within_self fs h.2))

pub json_eq_refl : (v : Json) → IsDistinct v → json_eq v v ≡ true
json_eq_refl v h = json_eq_self v h
