-- ===== src/Common/Maps.antt =====
-- A Go map with string keys, as an association list. Where the program ranges over a map, the order
-- of the keys is an argument of the model.
use mathlib.Core.Path.{◌≡◌, refl}
use mathlib.Core.Option.{Option, none, some}
use mathlib.Core.List.{List, [], ◌∷◌}
use native.Mathlib.Omega.{arith}
use text.Mathlib.Text.{◌==◌}
use text.Mathlib.TextEquality.{eq_iff}
use Prim.Native.String.{String}
use grafana_operator.Common.Tests.{if◌then◌else◌}

abbrev pub Assoc {ℓ} : Type ℓ → Type ℓ
Assoc V = List (String × V)

module _ {ℓ} {A : Type ℓ} where
  -- `delete(m, key)`
  unfoldable pub delete : String → Assoc A → Assoc A
  delete key [] = []
  delete key ((name, a) ∷ rest) =
      let others = delete key rest in if name == key then others else (name, a) ∷ others

  -- `m[key] = value`
  unfoldable pub insert : String → A → Assoc A → Assoc A
  insert key value [] = (key, value) ∷ []
  insert key value ((name, a) ∷ rest) =
      if name == key then (name, value) ∷ rest else (name, a) ∷ insert key value rest

  -- `a, ok := m[key]`
  unfoldable pub lookup : (key : String) → Assoc A → Option A
  lookup key [] = none
  lookup key ((name, a) ∷ rest) = if name == key then some a else lookup key rest

  unfoldable pub keys : Assoc A → List String
  keys [] = []
  keys ((name, a) ∷ rest) = name ∷ keys rest

  pub lookup-delete :
      (key other : String) (values : Assoc A)
      → lookup other (delete key values) ≡ (if key == other then none else lookup other values)
  unfolding lookup delete
  lookup-delete key other [] = ground arith
  lookup-delete key other ((name, a) ∷ rest) =
      ground
        (arith, eq_iff name key, eq_iff key other, eq_iff name other, lookup-delete key other rest)

  pub lookup-insert :
      (key other : String) (value : A) (values : Assoc A)
      → lookup other (insert key value values)
        ≡ (if key == other then some value else lookup other values)
  unfolding lookup insert
  lookup-insert key other value [] = refl
  lookup-insert key other value ((name, a) ∷ rest) = ground (
    arith,
    eq_iff name key,
    lookup-insert key other value rest,
    eq_iff key other,
    eq_iff name other,
  )

pub ruleset map_laws = (lookup-insert, lookup-delete)

-- A Go map holds a key once.
abbrev pub HasDistinctKeys {ℓ} : {V : Type ℓ} → Assoc V → Type ℓ
HasDistinctKeys [] = Unit
HasDistinctKeys ((key, _) ∷ l) = (lookup key l ≡ none) × HasDistinctKeys l

-- A value, or another one if there is none.
abbrev pub or_other {ℓ} : {V : Type ℓ} → Option V → Option V → Option V
or_other none other = other
or_other (some v) other = some v
