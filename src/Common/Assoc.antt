-- ===== src/Common/Assoc.antt =====
-- Maps as association lists, the first entry of a key being the one that counts.
use mathlib.Core.Path.{◌≡◌, refl}
use mathlib.Core.Bool.{Bool, false, ◌||◌}
use mathlib.Core.Option.{Option, none, some}
use mathlib.Core.List.{List, [], ◌∷◌, ◌++◌}
use native.Mathlib.Omega.{arith}
use lecrm.Common.Tests.{if◌then◌else◌}
use lecrm.Common.Keys.{Eq, ◌==◌}

abbrev pub map_value {ℓ} : {V : Type ℓ} → Option V → (V → V) → Option V
map_value none f = none
map_value (some v) f = some (f v)

-- The first that is there.
abbrev pub or_else {ℓ} : {V : Type ℓ} → Option V → Option V → Option V
or_else none other = other
or_else (some v) other = some v

module _ {ℓ κ} {K : Type ℓ} ⦃keys : Eq K⦄ {V : Type κ} where
  unfoldable pub lookup : K → List (K × V) → Option V
  lookup key [] = none
  lookup key ((k, old) ∷ rest) = if k == key then some old else lookup key rest

  -- `UPDATE … WHERE key = k`: an absent key changes nothing.
  unfoldable pub update : K → (V → V) → List (K × V) → List (K × V)
  update key f [] = []
  update key f ((k, old) ∷ rest) =
      let after = update key f rest in if k == key then (k, f old) ∷ after else (k, old) ∷ after

  -- `m[k] = v`: the entry of the key is overwritten, or a new one is made.
  unfoldable pub insert : K → V → List (K × V) → List (K × V)
  insert key new [] = (key, new) ∷ []
  insert key new ((k, old) ∷ rest) =
      let after = insert key new rest in if k == key then (key, new) ∷ rest else (k, old) ∷ after

  pub lookup-update :
      (key at : K) (f : V → V) (table : List (K × V))
      → lookup at (update key f table)
        ≡ (if key == at then map_value (lookup at table) f else lookup at table)
  unfolding lookup update
  lookup-update key at f [] = ground arith
  lookup-update key at f ((k, old) ∷ rest) = ground (
    arith,
    lookup-update key at f rest,
    keys.same_iff k at,
    keys.same_iff k key,
    keys.same_iff key at,
  )

  pub lookup-insert :
      (key at : K) (new : V) (table : List (K × V))
      → lookup at (insert key new table) ≡ (if key == at then some new else lookup at table)
  unfolding lookup insert
  lookup-insert key at new [] = refl
  lookup-insert key at new ((k, old) ∷ rest) = ground (
    arith,
    lookup-insert key at new rest,
    keys.same_iff k at,
    keys.same_iff k key,
    keys.same_iff key at,
  )

  pub lookup-append_one :
      (key at : K) (new : V) (table : List (K × V))
      → lookup at (table ++ (key, new) ∷ [])
        ≡ or_else (lookup at table) (if key == at then some new else none)
  unfolding lookup
  lookup-append_one key at new [] = ground arith
  lookup-append_one key at new ((k, old) ∷ rest) = ground (arith, lookup-append_one key at new rest)

module _ {ℓ} {K : Type ℓ} ⦃e : Eq K⦄ where
  -- Membership in a set of keys.
  abbrev pub contains : K → List K → Bool
  contains k [] = false
  contains k (j ∷ js) = (j == k) || contains k js
