-- ===== src/Json/Strip.antt =====
-- Dropping private keys from a value at every depth, for any test on keys.
use user_delegated_auth_serv.Base.{
  String, ◌≡◌, refl, ap, Bool, true, false, Option, none, some, arith, Bool-cases, inl, inr, eq_iff,
  if◌then◌else◌, ◌==◌,
}
use user_delegated_auth_serv.Json.{
  Json, null, bool, int, float, str, arr, obj, Items, nil, cons, Fields, end, field, get, put,
}

module _ (is_private : String → Bool) where
  unfoldable mutual
    pub strip_keys : Json → Json
    strip_keys (arr xs) = arr (strip_items xs)
    strip_keys (obj fs) = obj (strip_fields fs)
    strip_keys v = v

    pub strip_items : Items → Items
    strip_items nil = nil
    strip_items (cons x xs) = cons (strip_keys x) (strip_items xs)

    pub strip_fields : Fields → Fields
    strip_fields end = end
    strip_fields (field k v fs) =
        if is_private k then strip_fields fs else field k (strip_keys v) (strip_fields fs)

  -- No object inside the value has a private key.
  unfoldable mutual
    pub IsPublic : Json → Type 0
    IsPublic (arr xs) = ArePublic xs
    IsPublic (obj fs) = HasPublic fs
    IsPublic v = Unit

    pub ArePublic : Items → Type 0
    ArePublic nil = Unit
    ArePublic (cons x xs) = IsPublic x × ArePublic xs

    pub HasPublic : Fields → Type 0
    HasPublic end = Unit
    HasPublic (field k v fs) = (is_private k ≡ false) × IsPublic v × HasPublic fs

  mutual
    unfolding strip_keys IsPublic

    -- What is left has no private key at any depth.
    pub strip_keys-IsPublic : (v : Json) → IsPublic (strip_keys v)
    strip_keys-IsPublic null = tt
    strip_keys-IsPublic (bool b) = tt
    strip_keys-IsPublic (int n) = tt
    strip_keys-IsPublic (float s) = tt
    strip_keys-IsPublic (str s) = tt
    strip_keys-IsPublic (arr xs) = strip_items-ArePublic xs
    strip_keys-IsPublic (obj fs) = strip_fields-HasPublic fs

    strip_items-ArePublic : (xs : Items) → ArePublic (strip_items xs)
    strip_items-ArePublic nil = tt
    strip_items-ArePublic (cons x xs) = (strip_keys-IsPublic x, strip_items-ArePublic xs)

    pub strip_fields-HasPublic : (fs : Fields) → HasPublic (strip_fields fs)
    strip_fields-HasPublic end = tt
    strip_fields-HasPublic (field k v fs) = elim (Bool-cases (is_private k)) [
      | inl p ↦ rw p (strip_fields-HasPublic fs)
      | inr p ↦ rw p (p, strip_keys-IsPublic v, strip_fields-HasPublic fs)
    ]

  mutual
    unfolding strip_keys IsPublic

    strip_keys_kept : (v : Json) → IsPublic v → strip_keys v ≡ v
    strip_keys_kept null h = refl
    strip_keys_kept (bool b) h = refl
    strip_keys_kept (int n) h = refl
    strip_keys_kept (float s) h = refl
    strip_keys_kept (str s) h = refl
    strip_keys_kept (arr xs) h = ap arr (strip_items_kept xs h)
    strip_keys_kept (obj fs) h = ap obj (strip_fields_kept fs h)

    strip_items_kept : (xs : Items) → ArePublic xs → strip_items xs ≡ xs
    strip_items_kept nil h = refl
    strip_items_kept (cons x xs) h = cc (strip_keys_kept x h.0, strip_items_kept xs h.1)

    strip_fields_kept : (fs : Fields) → HasPublic fs → strip_fields fs ≡ fs
    strip_fields_kept end h = refl
    strip_fields_kept (field k v fs) h =
        rw h.0 (cc (strip_keys_kept v h.1, strip_fields_kept fs h.2))

  -- A value without private keys is unchanged.
  pub strip_keys_of_IsPublic : (v : Json) → IsPublic v → strip_keys v ≡ v
  strip_keys_of_IsPublic v h = strip_keys_kept v h

  pub strip_fields_of_HasPublic : (fs : Fields) → HasPublic fs → strip_fields fs ≡ fs
  strip_fields_of_HasPublic fs h = strip_fields_kept fs h

module _ (p q : String → Bool) (q-imp-p : (key : String) → q key ≡ true → p key ≡ true) where
  mutual
    unfolding IsPublic

    pub IsPublic-weaken : (v : Json) → IsPublic p v → IsPublic q v
    IsPublic-weaken null h = tt
    IsPublic-weaken (bool b) h = tt
    IsPublic-weaken (int n) h = tt
    IsPublic-weaken (float s) h = tt
    IsPublic-weaken (str s) h = tt
    IsPublic-weaken (arr xs) h = ArePublic-weaken xs h
    IsPublic-weaken (obj fs) h = HasPublic-weaken fs h

    ArePublic-weaken : (xs : Items) → ArePublic p xs → ArePublic q xs
    ArePublic-weaken nil h = tt
    ArePublic-weaken (cons x xs) h = (IsPublic-weaken x h.0, ArePublic-weaken xs h.1)

    -- Fewer private keys leave a public object public.
    pub HasPublic-weaken : (fs : Fields) → HasPublic p fs → HasPublic q fs
    HasPublic-weaken end h = tt
    HasPublic-weaken (field k v fs) h =
        (ground (arith, q-imp-p k), IsPublic-weaken v h.1, HasPublic-weaken fs h.2)

module _ (is_private : String → Bool) where
  pub put-HasPublic :
      (k : String) (v : Json) (fs : Fields)
      → is_private k ≡ false
      → IsPublic is_private v
      → HasPublic is_private fs
      → HasPublic is_private (put k v fs)
  unfolding put IsPublic
  put-HasPublic k v end p h kept = (p, h, tt)
  put-HasPublic k v (field j w fs) p h kept = elim (Bool-cases (j == k)) [
    | inl e ↦ rw e (kept.0, h, kept.2)
    | inr e ↦ rw e (kept.0, kept.1, put-HasPublic k v fs p h kept.2)
  ]

  -- No object inside the values of the members has a private key.
  unfoldable pub HasPublicValues : Fields → Type 0
  HasPublicValues end = Unit
  HasPublicValues (field k v fs) = IsPublic is_private v × HasPublicValues fs

  pub put-HasPublicValues :
      (k : String) (v : Json) (fs : Fields)
      → IsPublic is_private v
      → HasPublicValues fs
      → HasPublicValues (put k v fs)
  unfolding put HasPublicValues
  put-HasPublicValues k v end h kept = (h, tt)
  put-HasPublicValues k v (field j w fs) h kept = elim (Bool-cases (j == k)) [
    | inl e ↦ rw e (h, kept.1)
    | inr e ↦ rw e (kept.0, put-HasPublicValues k v fs h kept.1)
  ]

  pub HasPublic-HasPublicValues : (fs : Fields) → HasPublic is_private fs → HasPublicValues fs
  unfolding IsPublic HasPublicValues
  HasPublic-HasPublicValues end h = tt
  HasPublic-HasPublicValues (field k v fs) h = (h.1, HasPublic-HasPublicValues fs h.2)

abbrev pub map_option {ℓ κ} : {A : Type ℓ} {B : Type κ} → (A → B) → Option A → Option B
map_option f none = none
map_option f (some a) = some (f a)

-- Under a public key the stripped value is found, and under a private one nothing.
pub get-strip_fields :
    (is_private : String → Bool) (key : String) (fs : Fields)
    → get key (strip_fields is_private fs)
      ≡ (if is_private key then none else map_option (strip_keys is_private) (get key fs))
unfolding get strip_keys
get-strip_fields is_private key end = ground arith
get-strip_fields is_private key (field k v fs) =
    ground (arith, eq_iff k key, get-strip_fields is_private key fs)
