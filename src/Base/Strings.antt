-- ===== src/Base/Strings.antt =====
-- Tests on lists of texts and on optional texts.
use Prim.Native.String.{String}
use mathlib.Core.Path.{◌≡◌, refl}
use mathlib.Core.Logic.{◌↔◌}
use mathlib.Core.Bool.{Bool, true, false}
use mathlib.Core.Option.{Option, none, some}
use mathlib.Core.List.{List, [], ◌∷◌, ◌++◌}
use native.Mathlib.Omega.{arith}
use text.Mathlib.Text.{◌==◌}
use text.Mathlib.TextEquality.{eq_iff}
use user_delegated_auth_serv.Base.Tests.{if◌then◌else◌}

-- `x in xs`
abbrev pub mem : String → List String → Bool
mem x [] = false
mem x (y ∷ ys) = if x == y then true else mem x ys

pub mem-append :
    (x : String) (ys zs : List String) → mem x (ys ++ zs) ≡ (if mem x ys then true else mem x zs)
mem-append x [] zs = refl
mem-append x (y ∷ ys) zs = ground (arith, mem-append x ys zs)

-- `==` of `str | None`
abbrev pub opt_eq : Option String → Option String → Bool
opt_eq none none = true
opt_eq (some a) (some b) = a == b
opt_eq _ _ = false

pub opt_eq_iff : (a b : Option String) → (opt_eq a b ≡ true) ↔ (a ≡ b)
opt_eq_iff none none = ground arith
opt_eq_iff none (some b) = ground arith
opt_eq_iff (some a) none = ground arith
opt_eq_iff (some a) (some b) = ground (arith, eq_iff a b)

-- `==` of `list[str]`
abbrev pub list_eq : List String → List String → Bool
list_eq [] [] = true
list_eq (x ∷ xs) (y ∷ ys) = if x == y then list_eq xs ys else false
list_eq _ _ = false

pub list_eq_iff : (xs ys : List String) → (list_eq xs ys ≡ true) ↔ (xs ≡ ys)
list_eq_iff [] [] = ground arith
list_eq_iff [] (y ∷ ys) = ground arith
list_eq_iff (x ∷ xs) [] = ground arith
list_eq_iff (x ∷ xs) (y ∷ ys) = ground (arith, eq_iff x y, list_eq_iff xs ys)

-- No text stands twice in the list.
abbrev pub NoRepeat : List String → Type 0
NoRepeat [] = Unit
NoRepeat (x ∷ xs) = (mem x xs ≡ false) × NoRepeat xs

pub NoRepeat-append :
    (xs : List String) (y : String) → NoRepeat xs → mem y xs ≡ false → NoRepeat (xs ++ (y ∷ []))
NoRepeat-append [] y h k = (refl, tt)
NoRepeat-append (x ∷ xs) y h k =
    ground (arith, NoRepeat-append xs y h.1, mem-append x xs (y ∷ []), eq_iff x y, eq_iff y x)
