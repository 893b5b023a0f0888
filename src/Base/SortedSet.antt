-- ===== src/Base/SortedSet.antt =====
-- `sorted(set(values))` and `sorted(values)` of texts.
use Prim.Native.String.{String}
use mathlib.Core.Path.{◌≡◌, refl}
use mathlib.Core.Bool.{Bool, true, false}
use mathlib.Core.Logic.{◌≢◌}
use mathlib.Core.List.{List, [], ◌∷◌}
use native.Mathlib.Omega.{arith}
use text.Mathlib.Text.{◌==◌}
use text.Mathlib.TextEquality.{eq_iff}
use text.Mathlib.TextPositions.{eq_refl}
use user_delegated_auth_serv.Base.Tests.{if◌then◌else◌, All, keep}
use user_delegated_auth_serv.Base.Text.{str_lt, str_lt_trans, eq_of_not_lt}
use user_delegated_auth_serv.Base.Strings.{mem}

insert_new : String → List String → List String
insert_new x [] = x ∷ []
insert_new x (y ∷ ys) =
    if str_lt x y then x ∷ y ∷ ys else if x == y then y ∷ ys else y ∷ insert_new x ys

unfoldable pub sorted_set : List String → List String
unfolding insert_new str_lt
sorted_set [] = []
sorted_set (x ∷ xs) = insert_new x (sorted_set xs)

insert_each : String → List String → List String
insert_each x [] = x ∷ []
insert_each x (y ∷ ys) = if str_lt y x then y ∷ insert_each x ys else x ∷ y ∷ ys

unfoldable pub sorted : List String → List String
unfolding insert_each str_lt
sorted [] = []
sorted (x ∷ xs) = insert_each x (sorted xs)

mem-insert_new :
    (z x : String) (ys : List String)
    → mem z (insert_new x ys) ≡ (if z == x then true else mem z ys)
unfolding insert_new
mem-insert_new z x [] = refl
mem-insert_new z x (y ∷ ys) =
    ground (arith, mem-insert_new z x ys, eq_iff x y, eq_iff z x, eq_iff z y)

pub mem-sorted_set : (z : String) (xs : List String) → mem z (sorted_set xs) ≡ mem z xs
unfolding sorted_set
mem-sorted_set z [] = refl
mem-sorted_set z (x ∷ xs) = ground (arith, mem-insert_new z x (sorted_set xs), mem-sorted_set z xs)

mem-insert_each :
    (z x : String) (ys : List String)
    → mem z (insert_each x ys) ≡ (if z == x then true else mem z ys)
unfolding insert_each
mem-insert_each z x [] = refl
mem-insert_each z x (y ∷ ys) = ground (arith, mem-insert_each z x ys)

pub mem-sorted : (z : String) (xs : List String) → mem z (sorted xs) ≡ mem z xs
unfolding sorted
mem-sorted z [] = refl
mem-sorted z (x ∷ xs) = ground (arith, mem-insert_each z x (sorted xs), mem-sorted z xs)

-- Every text of the list comes after `x`.
abbrev pub IsAbove : String → List String → Type 0
IsAbove x ys = All (λ y. str_lt x y ≡ true) ys

-- Strictly ascending: sorted, and no text twice.
abbrev pub IsAscending : List String → Type 0
IsAscending [] = Unit
IsAscending (x ∷ xs) = IsAbove x xs × IsAscending xs

IsAbove-trans : (x y : String) (zs : List String) → str_lt x y ≡ true → IsAbove y zs → IsAbove x zs
IsAbove-trans x y [] h k = tt
IsAbove-trans x y (z ∷ zs) h (k, ks) = (str_lt_trans x y z h k, IsAbove-trans x y zs h ks)

insert_new-IsAbove :
    (w x : String) (ys : List String)
    → str_lt w x ≡ true
    → IsAbove w ys
    → IsAbove w (insert_new x ys)
unfolding insert_new
insert_new-IsAbove w x [] h k = (h, tt)
insert_new-IsAbove w x (y ∷ ys) h k = ground (arith, insert_new-IsAbove w x ys h k.1)

insert_new-IsAscending :
    (x : String) (ys : List String) → IsAscending ys → IsAscending (insert_new x ys)
unfolding insert_new
insert_new-IsAscending x [] h = (tt, tt)
insert_new-IsAscending x (y ∷ ys) h = ground (
  arith,
  insert_new-IsAscending x ys h.1,
  insert_new-IsAbove y x ys,
  IsAbove-trans x y ys,
  eq_iff x y,
  eq_of_not_lt x y,
)

pub sorted_set-IsAscending : (xs : List String) → IsAscending (sorted_set xs)
unfolding sorted_set
sorted_set-IsAscending [] = tt
sorted_set-IsAscending (x ∷ xs) =
    insert_new-IsAscending x (sorted_set xs) (sorted_set-IsAscending xs)

insert_new_of_IsAbove : (x : String) (ys : List String) → IsAbove x ys → insert_new x ys ≡ x ∷ ys
unfolding insert_new
insert_new_of_IsAbove x [] h = refl
insert_new_of_IsAbove x (y ∷ ys) h = ground arith

-- A list that is strictly ascending already is unchanged.
pub sorted_set_of_IsAscending : (xs : List String) → IsAscending xs → sorted_set xs ≡ xs
unfolding sorted_set
sorted_set_of_IsAscending [] h = refl
sorted_set_of_IsAscending (x ∷ xs) h =
    ground (arith, sorted_set_of_IsAscending xs h.1, insert_new_of_IsAbove x xs h.0)

insert_new-ne-nil : (x : String) (ys : List String) → insert_new x ys ≢ []
unfolding insert_new
insert_new-ne-nil x [] = ground arith
insert_new-ne-nil x (y ∷ ys) = ground arith

pub sorted_set-eq-nil : (xs : List String) → sorted_set xs ≡ [] → xs ≡ []
unfolding sorted_set
sorted_set-eq-nil [] h = refl
sorted_set-eq-nil (x ∷ xs) h = absurd (insert_new-ne-nil x (sorted_set xs) h)

insert_each-ne-nil : (x : String) (ys : List String) → insert_each x ys ≢ []
unfolding insert_each
insert_each-ne-nil x [] = ground arith
insert_each-ne-nil x (y ∷ ys) = ground arith

pub sorted-eq-nil : (xs : List String) → sorted xs ≡ [] → xs ≡ []
unfolding sorted
sorted-eq-nil [] h = refl
sorted-eq-nil (x ∷ xs) h = absurd (insert_each-ne-nil x (sorted xs) h)

pub mem-keep :
    (p : String → Bool) (z : String) (xs : List String)
    → mem z (keep p xs) ≡ (if p z then mem z xs else false)
mem-keep p z [] = ground arith
mem-keep p z (x ∷ xs) = ground (arith, mem-keep p z xs, eq_iff z x)

pub keep-eq-nil :
    (p : String → Bool) (xs : List String)
    → ((s : String) → mem s xs ≡ true → p s ≡ false)
    → keep p xs ≡ []
keep-eq-nil p [] h = refl
keep-eq-nil p (x ∷ xs) h = rw (h x (rw (eq_refl x))) (keep-eq-nil p xs (λ s m. h s (ground arith)))
