-- ===== src/Prelude/Table.antt =====
-- A table of the database with a text primary key: its rows in the order of insertion.
use mathlib.Core.Path.{◌≡◌, refl}
use mathlib.Core.Bool.{true, false}
use mathlib.Core.Option.{Option, none, some}
use mathlib.Core.List.{List, [], ◌∷◌, ◌++◌}
use Prim.Native.String.{String}
use native.Mathlib.Omega.{arith}
use text.Mathlib.Text.{◌==◌}
use text.Mathlib.TextEquality.{eq_iff}
use virmill.Prelude.Tests.{if◌then◌else◌}

abbrev pub Table {ℓ} : Type ℓ → Type ℓ
Table V = List (String × V)

module _ {ℓ} {V : Type ℓ} where
  -- `SELECT … WHERE key=?`
  unfoldable pub lookup : String → Table V → Option V
  lookup k [] = none
  lookup k ((j, v) ∷ t) = if j == k then some v else lookup k t

  -- `INSERT`, which the primary key refuses where the key is there.
  unfoldable pub insert : String → V → Table V → Option (Table V)
  unfolding lookup
  insert k v t = elim (lookup k t) [ none ↦ some (t ++ (k, v) ∷ []) | some _ ↦ none ]

  -- `UPDATE … WHERE key=?`
  unfoldable pub update : String → V → Table V → Table V
  update k v [] = []
  update k v ((j, w) ∷ t) = (if j == k then (j, v) else (j, w)) ∷ update k v t

  -- The keys are distinct.
  abbrev pub IsTable : Table V → Type ℓ
  IsTable [] = Unit
  IsTable ((k, v) ∷ t) = (lookup k t ≡ none) × IsTable t

  pub lookup-append :
      (j k : String) (v : V) (t : Table V)
      → lookup k t ≡ none
      → lookup j (t ++ (k, v) ∷ []) ≡ (if k == j then some v else lookup j t)
  unfolding lookup
  lookup-append j k v [] h = refl
  lookup-append j k v ((i, w) ∷ t) h =
      ground (arith, lookup-append j k v t, eq_iff i j, eq_iff k j, eq_iff i k)

  -- What a write leaves of a row: nothing where there was none.
  abbrev pub written : V → Option V → Option V
  written v none = none
  written v (some _) = some v

  pub lookup-update :
      (j k : String) (v : V) (t : Table V)
      → lookup j (update k v t) ≡ (if k == j then written v (lookup j t) else lookup j t)
  unfolding lookup update
  lookup-update j k v [] = ground arith
  lookup-update j k v ((i, u) ∷ t) =
      ground (arith, lookup-update j k v t, eq_iff i j, eq_iff k j, eq_iff i k)

  pub lookup-insert :
      (j k : String) (v : V) (t t' : Table V)
      → insert k v t ≡ some t'
      → lookup j t' ≡ (if k == j then some v else lookup j t)
  unfolding insert
  lookup-insert j k v t t' h = ground (arith, lookup-append j k v t)

  -- `INSERT` is refused exactly where the key is taken.
  pub insert-fresh :
      (k : String) (v : V) (t t' : Table V) → insert k v t ≡ some t' → lookup k t ≡ none
  unfolding insert
  insert-fresh k v t t' h = ground arith

  pub insert-append :
      (k : String) (v : V) (t t' : Table V) → insert k v t ≡ some t' → t' ≡ t ++ (k, v) ∷ []
  unfolding insert
  insert-append k v t t' h = ground arith

  pub IsTable-append :
      (k : String) (v : V) (t : Table V)
      → lookup k t ≡ none
      → IsTable t
      → IsTable (t ++ (k, v) ∷ [])
  unfolding lookup
  IsTable-append k v [] h d = (refl, tt)
  IsTable-append k v ((j, w) ∷ t) h d = (
    ground (arith, lookup-append j k v t, eq_iff j k, eq_iff k j, d.0),
    IsTable-append k v t (ground arith) d.1,
  )

  pub IsTable-insert :
      (k : String) (v : V) (t t' : Table V) → insert k v t ≡ some t' → IsTable t → IsTable t'
  unfolding insert
  IsTable-insert k v t t' h d =
      rw (insert-append k v t t' h) (IsTable-append k v t (insert-fresh k v t t' h) d)

  update-absent :
      (j k : String) (v : V) (t : Table V) → lookup j t ≡ none → lookup j (update k v t) ≡ none
  update-absent j k v t h = ground (arith, lookup-update j k v t)

  pub IsTable-update : (k : String) (v : V) (t : Table V) → IsTable t → IsTable (update k v t)
  unfolding update
  IsTable-update k v [] d = tt
  IsTable-update k v ((j, w) ∷ t) d =
      elim (j == k) as (λ b. IsTable ((if b then (j, v) else (j, w)) ∷ update k v t)) [
        | true ↦ (update-absent j k v t d.0, IsTable-update k v t d.1)
        | false ↦ (update-absent j k v t d.0, IsTable-update k v t d.1)
      ]
