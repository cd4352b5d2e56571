-- ===== src/Vesting/Loop.antt =====
-- The loop of `collect_vested` meets the schedule: where it stops, and what it leaves of that entry.
use gringotts.Base.{
  ℕ, zero, suc, ◌+◌, ◌-◌, ◌≤◌, ◌<◌, ◌≡◌, refl, ltb, if◌then◌else◌, List, [], ◌∷◌, sum, arith,
}
use gringotts.Word.{u128_mod, add128_lem, sub128-add128}
use gringotts.Vesting.Collect.{collect_from}
use gringotts.Vesting.Schedule.{Schedule, timestamps, amounts, vested}

-- How many entries are taken whole, and what is taken of the next one.
unfoldable pub whole : ℕ → List ℕ → ℕ
whole zero xs = 0
whole (suc r) [] = 0
whole (suc r) (a ∷ xs) = if ltb (suc r) a then 0 else suc (whole (suc r - a) xs)

unfoldable pub partial : ℕ → List ℕ → ℕ
partial zero xs = 0
partial (suc r) [] = 0
partial (suc r) (a ∷ xs) = if ltb (suc r) a then suc r else partial (suc r - a) xs

whole_of_zero : (n : ℕ) (xs : List ℕ) → n ≡ 0 → whole n xs ≡ 0
unfolding whole
whole_of_zero zero xs h = refl
whole_of_zero (suc n) xs h = absurd (omega arith)

partial_of_zero : (n : ℕ) (xs : List ℕ) → n ≡ 0 → partial n xs ≡ 0
unfolding partial
partial_of_zero zero xs h = refl
partial_of_zero (suc n) xs h = absurd (omega arith)

-- Too little has vested: the loop adds up what has.
pub collect_from_short :
    (now r i : ℕ) (p : Schedule) (acc first : ℕ)
    → acc + sum (amounts p) < u128_mod
    → acc + vested now p < r
    → (collect_from now r i (timestamps p) (amounts p) acc 0 first).0 ≡ acc + vested now p
unfolding collect_from vested
collect_from_short now r i [] acc first h k = omega arith
collect_from_short now r i ((t, a) ∷ p) acc first h k =
    ground
      (arith, add128_lem acc a (omega arith), collect_from_short now r (suc i) p (acc + a) (suc i))

-- Enough has vested: the loop stops at the entry that the request reaches.
pub collect_from_enough :
    (now r i : ℕ) (p : Schedule) (acc d : ℕ)
    → r ≡ acc + suc d
    → acc + sum (amounts p) < u128_mod
    → r < u128_mod
    → suc d ≤ vested now p
    → collect_from now r i (timestamps p) (amounts p) acc 0 i
      ≡ (r, partial (suc d) (amounts p), i + whole (suc d) (amounts p))
unfolding collect_from vested partial whole
collect_from_enough now r i [] acc d e h hr le = absurd (omega arith)
collect_from_enough now r i ((t, a) ∷ p) acc d e h hr le = ground (
  arith,
  add128_lem acc a (omega arith),
  sub128-add128 a r (acc + a) (omega arith),
  whole_of_zero (suc d - a) (amounts p),
  partial_of_zero (suc d - a) (amounts p),
  collect_from_enough now r (suc i) p (acc + a) (d - a),
)
