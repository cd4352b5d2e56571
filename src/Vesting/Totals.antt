-- ===== src/Vesting/Totals.antt =====
-- `total_vested_amount`, and what a withdrawal changes of it.
use gringotts.Base.{
  ℕ, suc, ◌+◌, ◌-◌, ◌≤◌, ◌<◌, ◌≡◌, ◌∙◌, refl, ap, List, [], ◌∷◌, some, sum, All, get_elem?,
  Option-cases, arith, inl, inr,
}
use gringotts.Word.{u128_mod, add128, add128_lem}
use gringotts.Error.{ok}
use gringotts.State.{Store}
use gringotts.Vesting.Collect.{collect_vested}
use gringotts.Vesting.Reads.{total_from, total_vested_amount}
use gringotts.Vesting.Schedule.{
  Schedule, timestamps, amounts, vested, vested-le-sum, consume, sum-consume, vested-consume,
  consume-consume, All-consume,
}
use gringotts.Vesting.Refinement.{with_schedule, collect_vested_enough}

-- The index of the loop counts the amounts that lie behind it.
total_from-cons :
    (now : ℕ) (ts : List ℕ) (i a : ℕ) (xs : List ℕ) (acc : ℕ)
    → total_from now ts (suc i) (a ∷ xs) acc ≡ total_from now ts i xs acc
unfolding total_from
total_from-cons now [] i a xs acc = refl
total_from-cons now (t ∷ ts) i a xs acc = elim (Option-cases (get_elem? xs i)) [
  | inl e ↦ rw e
  | inr (x, e) ↦ rw e (rw (total_from-cons now ts (suc i) a xs (add128 acc x)))
]

total_from-vested :
    (now : ℕ) (p : Schedule) (acc : ℕ)
    → acc + sum (amounts p) < u128_mod
    → total_from now (timestamps p) 0 (amounts p) acc ≡ ok (acc + vested now p)
unfolding total_from vested
total_from-vested now [] acc h = ground arith
total_from-vested now ((t, a) ∷ p) acc h = ground (
  arith,
  add128_lem acc a (omega arith),
  total_from-cons now (timestamps p) 0 a (amounts p) (add128 acc a),
  total_from-vested now p (acc + a) (omega arith),
)

-- The loop by indices over the two lists adds up the vested part of the schedule.
pub total_vested_amount-vested :
    (now : ℕ) (p : Schedule) (s : Store)
    → s.vesting_timestamps ≡ some (timestamps p)
    → s.vesting_amounts ≡ some (amounts p)
    → sum (amounts p) < u128_mod
    → total_vested_amount now s ≡ ok (vested now p)
unfolding total_vested_amount
total_vested_amount-vested now p s ht ha bound =
    rw (ht, ha) (total_from-vested now p 0 (omega arith) ∙ ap (λ (v : ℕ). ok v) (omega arith))

-- What has vested stays vested.
pub vested_mono : (now later : ℕ) (p : Schedule) → now ≤ later → vested now p ≤ vested later p
unfolding vested
vested_mono now later [] h = omega arith
vested_mono now later ((t, a) ∷ p) h = ground (arith, vested_mono now later p h)

module _ (now r : ℕ) (p : Schedule) (s : Store)
    (has_timestamps : s.vesting_timestamps ≡ some (timestamps p))
    (has_amounts : s.vesting_amounts ≡ some (amounts p)) (bound : sum (amounts p) < u128_mod)
    (positive : All (λ a. 0 < a) (amounts p)) (enough : r ≤ vested now p) where
  -- The sum that is left is a u128 still.
  sum_left : sum (amounts (consume r p)) + r ≡ sum (amounts p)
  sum_left = sum-consume r p (omega (arith, vested-le-sum now p))

  -- Where the stored lists are of one length, and so a schedule, with positive amounts whose sum is a u128:
  -- a withdrawal of an amount that has vested lowers the total that `total_vested_amount` reports, then and
  -- at any later time, by exactly that amount.
  pub total-collect :
      (later : ℕ)
      → now ≤ later
      → (total_vested_amount later s ≡ ok (vested later p))
        × (total_vested_amount later (collect_vested now r s).1 ≡ ok (vested later p - r))
  total-collect later h = (
    total_vested_amount-vested later p s has_timestamps has_amounts bound,
    rw (collect_vested_enough now r p s has_timestamps has_amounts bound positive enough) (
        total_vested_amount-vested later (consume r p) (with_schedule (consume r p) s) refl refl
          (omega (arith, sum_left))
        ∙ ap (λ (v : ℕ). ok v)
            (omega (arith, vested-consume later r p (omega (arith, vested_mono now later p h))))),
  )

-- Two withdrawals that have vested together are one withdrawal of the sum.
collect-collect :
    (now a b : ℕ) (p : Schedule) (s : Store)
    → s.vesting_timestamps ≡ some (timestamps p)
    → s.vesting_amounts ≡ some (amounts p)
    → sum (amounts p) < u128_mod
    → All (λ x. 0 < x) (amounts p)
    → a + b ≤ vested now p
    → collect_vested now b (collect_vested now a s).1 ≡ (ok b, (collect_vested now (a + b) s).1)
collect-collect now a b p s ht ha bound pos h =
    let left = sum-consume a p (omega (arith, vested-le-sum now p)) in
    let vested_left = vested-consume now a p (omega arith) in
    rw
      (
        collect_vested_enough now a p s ht ha bound pos (omega arith),
        collect_vested_enough now (a + b) p s ht ha bound pos h,
        ← consume-consume a b p,
      )
      (collect_vested_enough now b (consume a p) (with_schedule (consume a p) s) refl refl
        (omega (arith, left)) (All-consume a p pos) (omega (arith, vested_left)))
