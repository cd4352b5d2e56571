-- ===== src/Storage/Ascending.antt =====
-- Entries in the ascending order of their keys: saves and removals keep it, and with it a map is
-- determined by its lookups.
use gringotts.Base.{◌≡◌, refl, sym, true, none, [], ◌∷◌, All, arith, Bool-cases, inl, inr}
use gringotts.Storage.{Map, beq_refl, may_load, insert, remove}
use gringotts.Storage.Keys.{Key}
use gringotts.Storage.Order.{IsOrdered}

module _ {K V : Type 0} ⦃key : Key K⦄ where
  -- Every key of a map comes after a key.
  abbrev Above : K → Map K V → Type 0
  Above k m = All (λ e. key.blt k e.0 ≡ true) m

  abbrev pub IsAscending : Map K V → Type 0
  IsAscending [] = Unit
  IsAscending ((k, v) ∷ m) = Above k m × IsAscending m

  insert-Above :
      (j k : K) (v : V) (m : Map K V) → key.blt j k ≡ true → Above j m → Above j (insert k v m)
  unfolding insert
  insert-Above j k v [] lt above = (lt, tt)
  insert-Above j k v ((i, w) ∷ m) lt (first, above) = elim (Bool-cases (key.beq i k)) [
    | inl same ↦ rw same (lt, above)
    | inr other ↦ elim (Bool-cases (key.blt k i)) [
      | inl before ↦ rw (other, before) (lt, (first, above))
      | inr after ↦ rw (other, after) (first, insert-Above j k v m lt above)
    ]
  ]

  remove-Above : (j k : K) (m : Map K V) → Above j m → Above j (remove k m)
  unfolding remove
  remove-Above j k [] above = tt
  remove-Above j k ((i, w) ∷ m) (first, above) = elim (Bool-cases (key.beq i k)) [
    | inl same ↦ rw same (remove-Above j k m above)
    | inr other ↦ rw other (first, remove-Above j k m above)
  ]

  pub remove-IsAscending : (k : K) (m : Map K V) → IsAscending m → IsAscending (remove k m)
  unfolding remove
  remove-IsAscending k [] ascending = tt
  remove-IsAscending k ((i, w) ∷ m) (above, ascending) = elim (Bool-cases (key.beq i k)) [
    | inl same ↦ rw same (remove-IsAscending k m ascending)
    | inr other ↦ rw other (remove-Above i k m above, remove-IsAscending k m ascending)
  ]

  remove-absent : (k : K) (m : Map K V) → may_load k m ≡ none → remove k m ≡ m
  unfolding remove may_load
  remove-absent k [] absent = refl
  remove-absent k ((i, w) ∷ m) absent = elim (Bool-cases (key.beq i k)) [
    | inl same ↦ absurd (ground (arith, absent))
    | inr other ↦ rw (other, remove-absent k m (ground (arith, absent))) refl
  ]

  -- What was not stored is saved and removed without a trace.
  pub remove-insert :
      (k : K) (v : V) (m : Map K V) → may_load k m ≡ none → remove k (insert k v m) ≡ m
  unfolding remove insert may_load
  remove-insert k v [] absent = ground (arith, beq_refl k)
  remove-insert k v ((i, w) ∷ m) absent = elim (Bool-cases (key.beq i k)) [
    | inl same ↦ absurd (ground (arith, absent))
    | inr other ↦
        let rest : may_load k m ≡ none = ground (arith, absent) in
        ground (arith, other, beq_refl k, remove-absent k m rest, remove-insert k v m rest)
  ]

  module _ (order : IsOrdered key) where
    Above-trans : (j k : K) (m : Map K V) → key.blt j k ≡ true → Above k m → Above j m
    Above-trans j k [] lt above = tt
    Above-trans j k ((i, w) ∷ m) lt (first, above) =
        (order.transitive j k i lt first, Above-trans j k m lt above)

    pub insert-IsAscending :
        (k : K) (v : V) (m : Map K V) → IsAscending m → IsAscending (insert k v m)
    unfolding insert
    insert-IsAscending k v [] ascending = (tt, tt)
    insert-IsAscending k v ((i, w) ∷ m) (above, ascending) = elim (Bool-cases (key.beq i k)) [
      | inl same ↦ rw same (rw (sym ((key.beq_iff i k).0 same)) above, ascending)
      | inr other ↦ elim (Bool-cases (key.blt k i)) [
        | inl before ↦
            rw (other, before) ((before, Above-trans k i m before above), (above, ascending))
        | inr after ↦
            rw (other, after)
              (
                insert-Above i k v m
                    (order.total k i (ground (arith, key.beq_iff i k, key.beq_iff k i)) after)
                    above,
                insert-IsAscending k v m ascending,
              )
      ]
    ]

    -- A key before all others is stored nowhere.
    Above-absent : (k : K) (m : Map K V) → Above k m → may_load k m ≡ none
    unfolding may_load
    Above-absent k [] above = refl
    Above-absent k ((i, w) ∷ m) (first, above) =
        ground (arith, key.beq_iff i k, order.irreflexive k, Above-absent k m above)

    -- A key that comes before another, and all behind it, is stored in neither place.
    before-absent :
        (i j : K) (w : V) (m : Map K V)
        → key.blt i j ≡ true
        → Above j m
        → may_load i ((j, w) ∷ m) ≡ none
    before-absent i j w m lt above = Above-absent i ((j, w) ∷ m) (lt, Above-trans i j m lt above)

    module _ (i j : K) (v w : V) (m m' : Map K V) (above : Above i m) (above' : Above j m')
        (same : (k : K) → may_load k ((i, v) ∷ m) ≡ may_load k ((j, w) ∷ m')) where
      -- The first keys are the same.
      first_key : i ≡ j
      unfolding may_load
      first_key = elim (Bool-cases (key.beq i j)) [
        | inl eq ↦ (key.beq_iff i j).0 eq
        | inr other ↦ elim (Bool-cases (key.blt i j)) [
          | inl lt ↦ absurd (ground (arith, beq_refl i, same i, before-absent i j w m' lt above'))
          | inr ge ↦
              let gt = order.total i j other ge in
              absurd (ground (arith, beq_refl j, same j, before-absent j i v m gt above))
        ]
      ]

      -- The rests have the same lookups.
      rest_same : (k : K) → may_load k m ≡ may_load k m'
      unfolding may_load
      rest_same k = elim (Bool-cases (key.beq i k)) [
        | inl eq ↦
            let e = (key.beq_iff i k).0 eq in
            let here : may_load i m ≡ none = Above-absent i m above in
            let there : may_load j m' ≡ none = Above-absent j m' above' in
            ground (arith, e, first_key, here, there)
        | inr other ↦ ground (arith, same k, first_key, other)
      ]

      first_value : v ≡ w
      unfolding may_load
      first_value = ground (arith, same i, same j, first_key, beq_refl i, beq_refl j)

    -- Maps in ascending order with the same lookups are the same.
    pub IsAscending-equal :
        (m m' : Map K V)
        → IsAscending m
        → IsAscending m'
        → ((k : K) → may_load k m ≡ may_load k m')
        → m ≡ m'
    unfolding may_load
    IsAscending-equal [] [] a b same = refl
    IsAscending-equal [] ((j, w) ∷ m') a b same = absurd (ground (arith, same j, beq_refl j))
    IsAscending-equal ((i, v) ∷ m) [] a b same = absurd (ground (arith, same i, beq_refl i))
    IsAscending-equal ((i, v) ∷ m) ((j, w) ∷ m') (above, a) (above', b) same = cc (
      first_key i j v w m m' above above' same,
      first_value i j v w m m' above above' same,
      IsAscending-equal m m' a b (rest_same i j v w m m' above above' same),
    )
