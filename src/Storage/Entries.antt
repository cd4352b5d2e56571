-- ===== src/Storage/Entries.antt =====
-- A property of every stored value.
use mathlib.Core.Path.{subst}
use gringotts.Base.{◌≡◌, some, [], ◌∷◌, All, arith, Bool-cases, inl, inr}
use gringotts.Storage.{Map, may_load, insert}
use gringotts.Storage.Keys.{Key}

module _ {K V : Type 0} ⦃key : Key K⦄ (P : V → Type 0) where
  pub All-insert :
      (k : K) (v : V) (m : Map K V) → P v → All (λ e. P e.1) m → All (λ e. P e.1) (insert k v m)
  unfolding insert
  All-insert k v [] p all = (p, tt)
  All-insert k v ((j, w) ∷ m) p (q, all) = elim (Bool-cases (key.beq j k)) [
    | inl same ↦ rw same (p, all)
    | inr other ↦ elim (Bool-cases (key.blt k j)) [
      | inl lt ↦ rw (other, lt) (p, (q, all))
      | inr ge ↦ rw (other, ge) (q, All-insert k v m p all)
    ]
  ]

  pub All-may_load :
      (k : K) (v : V) (m : Map K V) → All (λ e. P e.1) m → may_load k m ≡ some v → P v
  unfolding may_load
  All-may_load k v [] all e = absurd (cc)
  All-may_load k v ((j, w) ∷ m) (q, all) e = elim (Bool-cases (key.beq j k)) [
    | inl same ↦ subst P (ground (arith, e)) q
    | inr other ↦ All-may_load k v m all (ground (arith, e))
  ]
