-- ===== src/Base/Dictionary.antt =====
-- A `dict` as an association list: an old key keeps its place.
use mathlib.Core.Path.{◌≡◌, refl}
use mathlib.Core.Logic.{◌↔◌}
use mathlib.Core.Bool.{Bool, true}
use mathlib.Core.Option.{Option, none, some}
use mathlib.Core.List.{List, [], ◌∷◌}
use native.Mathlib.Omega.{arith}
use Prim.Native.String.{String}
use text.Mathlib.Text.{◌==◌}
use text.Mathlib.TextEquality.{eq_iff}
use user_delegated_auth_serv.Base.Tests.{if◌then◌else◌}

-- Keys that can be compared.
pub record Eq {ℓ} (A : Type ℓ) : Type ℓ where
  pub beq : A → A → Bool
  pub beq_iff : (a b : A) → (beq a b ≡ true) ↔ (a ≡ b)

instance abbrev pub string_eq : Eq String
string_eq = record { beq = ◌==◌; beq_iff = eq_iff }

abbrev pub Table {ℓ κ} : Type ℓ → Type κ → Type (ℓ ⊔ κ)
Table K V = List (K × V)

module _ {ℓ κ} {K : Type ℓ} {V : Type κ} ⦃e : Eq K⦄ where
  -- `table.get(key)`
  unfoldable pub lookup : K → Table K V → Option V
  lookup key [] = none
  lookup key ((k, v) ∷ rest) = if e.beq k key then some v else lookup key rest

  -- `table[key] = value`
  unfoldable pub insert : K → V → Table K V → Table K V
  insert key value [] = (key, value) ∷ []
  insert key value ((k, v) ∷ rest) =
      if e.beq k key then (key, value) ∷ rest else (k, v) ∷ insert key value rest

  pub lookup-insert :
      (key j : K) (value : V) (t : Table K V)
      → lookup j (insert key value t) ≡ (if e.beq key j then some value else lookup j t)
  unfolding lookup insert
  lookup-insert key j value [] = refl
  lookup-insert key j value ((k, v) ∷ rest) =
      ground
        (arith, e.beq_iff k key, e.beq_iff key j, e.beq_iff k j, lookup-insert key j value rest)
