-- ===== src/Storage.antt =====
-- `Map` of cw_storage_plus as the contract uses it: entries in the ascending order of their keys, the
-- order in which `keys` and `range` list them.
pub mod Keys
pub mod Entries
pub mod Order
pub mod Ascending
use gringotts.Base.{
  ◌≡◌, refl, ◌↔◌, Bool, true, false, Option, none, some, List, [], ◌∷◌, ◌+◌, ◌≤◌, ℕ, ◌&&◌,
  if◌then◌else◌, length, map, arith, Bool-cases, inl, inr,
}
use Keys.{Key}

abbrev pub Map : Type 0 → Type 0 → Type 0
Map K V = List (K × V)

pub beq_refl : {K : Type 0} ⦃key : Key K⦄ (k : K) → key.beq k k ≡ true
beq_refl ⦃key⦄ k = (key.beq_iff k k).1 refl

abbrev pub keys : {K V : Type 0} → Map K V → List K
keys = map (λ e. e.0)

module _ {K V : Type 0} ⦃key : Key K⦄ where
  unfoldable pub may_load : K → Map K V → Option V
  may_load k [] = none
  may_load k ((j, v) ∷ m) = if key.beq j k then some v else may_load k m

  -- An entry of that key is replaced; a new one goes before the first larger key.
  unfoldable pub insert : K → V → Map K V → Map K V
  insert k v [] = (k, v) ∷ []
  insert k v ((j, w) ∷ m) =
      if key.beq j k
      then (k, v) ∷ m
      else if key.blt k j
      then (k, v) ∷ (j, w) ∷ m
      else (j, w) ∷ insert k v m

  unfoldable pub remove : K → Map K V → Map K V
  remove k [] = []
  remove k ((j, w) ∷ m) = let rest = remove k m in if key.beq j k then rest else (j, w) ∷ rest

  pub may_load-insert :
      (k j : K) (v : V) (m : Map K V)
      → may_load j (insert k v m) ≡ (if key.beq k j then some v else may_load j m)
  unfolding may_load insert
  may_load-insert k j v [] = refl
  may_load-insert k j v ((i, w) ∷ m) =
      ground (arith, key.beq_iff k j, key.beq_iff i k, key.beq_iff i j, may_load-insert k j v m)

  pub may_load-remove :
      (k j : K) (m : Map K V)
      → may_load j (remove k m) ≡ (if key.beq k j then none else may_load j m)
  unfolding may_load remove
  may_load-remove k j [] = ground arith
  may_load-remove k j ((i, w) ∷ m) =
      ground (arith, key.beq_iff k j, key.beq_iff i k, key.beq_iff i j, may_load-remove k j m)

  -- What was saved under a key is what its load returns.
  pub may_load-insert_self : (k : K) (v : V) (m : Map K V) → may_load k (insert k v m) ≡ some v
  may_load-insert_self k v m = rw (may_load-insert k k v m, beq_refl k)
