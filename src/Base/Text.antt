-- ===== src/Base/Text.antt =====
-- Python's operations on texts that the services use: blanks, case, and the order of code points.
use Prim.Native.Nat.{ℕ}
use Prim.Native.Char.{code}
use Prim.Native.String.{String, [], ◌∷◌, ◌++◌ as append}
use text.Mathlib.TextLemmas.{cons-append}
use mathlib.Core.Path.{◌≡◌, refl, ap₂}
use mathlib.Core.Bool.{Bool, true, false, ◌&&◌, ◌||◌}
use mathlib.Core.Option.{Option, none, some}
use native.Mathlib.Omega.{arith}
use text.Mathlib.TextEquality.{Char-path}
use user_delegated_auth_serv.Base.Tests.{leb, ltb, nat_eq, if◌then◌else◌}

-- `str.isspace` of one character.
unfoldable pub is_space : ℕ → Bool
is_space c =
    (leb 9 c && leb c 13)
    || (leb 28 c && leb c 32)
    || nat_eq c 0x85
    || nat_eq c 0xa0
    || nat_eq c 0x1680
    || (leb 0x2000 c && leb c 0x200a)
    || nat_eq c 0x2028
    || nat_eq c 0x2029
    || nat_eq c 0x202f
    || nat_eq c 0x205f
    || nat_eq c 0x3000

abbrev pub is_empty : String → Bool
is_empty [] = true
is_empty (c ∷ s) = false

lstrip : String → String
lstrip [] = []
lstrip (c ∷ s) = if is_space (code c) then lstrip s else c ∷ s

rstrip : String → String
rstrip [] = []
rstrip (c ∷ s) = let rest = rstrip s in if is_empty rest && is_space (code c) then [] else c ∷ rest

-- `str.strip()`
unfoldable pub strip : String → String
unfolding lstrip rstrip is_space
strip s = rstrip (lstrip s)

-- `<` of Python's `str`: the order of code points.
unfoldable pub str_lt : String → String → Bool
str_lt [] [] = false
str_lt [] (d ∷ t) = true
str_lt (c ∷ s) [] = false
str_lt (c ∷ s) (d ∷ t) =
    if ltb (code c) (code d) then true else if nat_eq (code c) (code d) then str_lt s t else false

pub str_lt_irrefl : (s : String) → str_lt s s ≡ false
unfolding str_lt
str_lt_irrefl [] = refl
str_lt_irrefl (c ∷ s) = ground (arith, str_lt_irrefl s)

pub str_lt_trans : (s t u : String) → str_lt s t ≡ true → str_lt t u ≡ true → str_lt s u ≡ true
unfolding str_lt
str_lt_trans [] [] u h k = ground arith
str_lt_trans [] (d ∷ t) [] h k = ground arith
str_lt_trans [] (d ∷ t) (e ∷ u) h k = refl
str_lt_trans (c ∷ s) [] u h k = ground arith
str_lt_trans (c ∷ s) (d ∷ t) [] h k = ground arith
str_lt_trans (c ∷ s) (d ∷ t) (e ∷ u) h k = ground (arith, str_lt_trans s t u)

pub eq_of_not_lt : (s t : String) → str_lt s t ≡ false → str_lt t s ≡ false → s ≡ t
unfolding str_lt
eq_of_not_lt [] [] h k = refl
eq_of_not_lt [] (d ∷ t) h k = ground arith
eq_of_not_lt (c ∷ s) [] h k = ground arith
eq_of_not_lt (c ∷ s) (d ∷ t) h k =
    ap₂ ◌∷◌ (Char-path c d (ground arith)) (eq_of_not_lt s t (ground arith) (ground arith))

pub is_empty-append : (s t : String) → is_empty s ≡ false → is_empty (append s t) ≡ false
is_empty-append [] t h = cc
is_empty-append (c ∷ s) t h = rw cons-append

-- `s.rstrip("/")`
unfoldable pub rstrip_slash : String → String
rstrip_slash [] = []
rstrip_slash (c ∷ s) =
    let rest = rstrip_slash s in if is_empty rest && nat_eq (code c) b'/' then [] else c ∷ rest

-- What follows a prefix, if the text starts with it.
unfoldable pub without_prefix : String → String → Option String
without_prefix [] s = some s
without_prefix (c ∷ p) [] = none
without_prefix (c ∷ p) (d ∷ s) = if nat_eq (code c) (code d) then without_prefix p s else none
