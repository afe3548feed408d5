-- ===== src/Common/Map.antt =====
-- A Go map as an association list with one entry for each key.
use simple_twitter.Common.Tests.{if◌then◌else◌}
use simple_twitter.Common.Order.{Order}
use mathlib.Core.Path.{◌≡◌, refl}
use mathlib.Core.Bool.{true, false}
use mathlib.Core.Option.{Option, none, some}
use mathlib.Core.List.{List, [], ◌∷◌}
use native.Mathlib.Omega.{arith}

abbrev pub Map {ℓ κ} : Type ℓ → Type κ → Type (ℓ ⊔ κ)
Map K V = List (K × V)

module _ {ℓ κ} {K : Type ℓ} {V : Type κ} ⦃o : Order K⦄ where
  unfoldable pub lookup : K → Map K V → Option V
  lookup k [] = none
  lookup k ((j, v) ∷ m) = if o.eqb j k then some v else lookup k m

  -- `m[k] = v`
  unfoldable pub insert : K → V → Map K V → Map K V
  insert k v [] = (k, v) ∷ []
  insert k v ((j, w) ∷ m) = if o.eqb j k then (k, v) ∷ m else (j, w) ∷ insert k v m

  -- `delete(m, k)`
  unfoldable pub delete : K → Map K V → Map K V
  delete k [] = []
  delete k ((j, w) ∷ m) = let rest = delete k m in if o.eqb j k then rest else (j, w) ∷ rest

  pub lookup-insert :
      (k j : K) (v : V) (m : Map K V)
      → lookup j (insert k v m) ≡ (if o.eqb k j then some v else lookup j m)
  unfolding lookup insert
  lookup-insert k j v [] = refl
  lookup-insert k j v ((i, w) ∷ m) =
      ground (arith, o.eqb_iff k j, o.eqb_iff i k, o.eqb_iff i j, lookup-insert k j v m)

  pub lookup-delete :
      (k j : K) (m : Map K V) → lookup j (delete k m) ≡ (if o.eqb k j then none else lookup j m)
  unfolding lookup delete
  lookup-delete k j [] = ground arith
  lookup-delete k j ((i, w) ∷ m) =
      ground (arith, o.eqb_iff k j, o.eqb_iff i k, o.eqb_iff i j, lookup-delete k j m)

module _ {ℓ κ} {K : Type ℓ} {V : Type κ} ⦃o : Order K⦄ where
  -- Deleting a key that is not there changes nothing.
  pub delete_missing : (k : K) (m : Map K V) → lookup k m ≡ none → delete k m ≡ m
  unfolding lookup delete
  delete_missing k [] h = refl
  delete_missing k ((j, w) ∷ m) h = ground (arith, delete_missing k m)

  pub lookup-insert_same :
      (k j : K) (v : V) (m : Map K V) → o.eqb k j ≡ true → lookup j (insert k v m) ≡ some v
  lookup-insert_same k j v m h = ground (arith, lookup-insert k j v m)

  pub lookup-insert_other :
      (k j : K) (v : V) (m : Map K V) → o.eqb k j ≡ false → lookup j (insert k v m) ≡ lookup j m
  lookup-insert_other k j v m h = ground (arith, lookup-insert k j v m)

pub ruleset map_laws = (lookup-insert, lookup-delete)
