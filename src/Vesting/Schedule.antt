-- ===== src/Vesting/Schedule.antt =====
-- The schedule that the two lists stand for, and what it means to take an amount off its front.
use native.Mathlib.Nat.{add-zero}
use gringotts.Base.{
  ℕ, zero, suc, ◌+◌, ◌-◌, ◌≤◌, ◌<◌, ◌≡◌, ◌∙◌, refl, ltb, if◌then◌else◌, List, [], ◌∷◌, map, sum,
  All, arith,
}
use gringotts.Cosmos.{Timestamp}

-- Pairs of a timestamp and the amount that vests then.
abbrev pub Schedule : Type 0
Schedule = List (Timestamp × ℕ)

abbrev pub timestamps : Schedule → List Timestamp
timestamps = map (λ e. e.0)

abbrev pub amounts : Schedule → List ℕ
amounts = map (λ e. e.1)

-- What has vested at a time: the entries up to the first later one, with no bound on the sum.
unfoldable pub vested : Timestamp → Schedule → ℕ
vested now [] = 0
vested now ((t, a) ∷ p) = if ltb now t then 0 else a + vested now p

-- An amount is taken off the front, entry by entry.
unfoldable pub consume : ℕ → Schedule → Schedule
consume zero p = p
consume (suc r) [] = []
consume (suc r) ((t, a) ∷ p) = if ltb (suc r) a then (t, a - suc r) ∷ p else consume (suc r - a) p

pub vested-le-sum : (now : Timestamp) (p : Schedule) → vested now p ≤ sum (amounts p)
unfolding vested
vested-le-sum now [] = omega arith
vested-le-sum now ((t, a) ∷ p) = ground (arith, vested-le-sum now p)

-- Taking an amount off takes it from the sum.
pub sum-consume :
    (r : ℕ) (p : Schedule) → r ≤ sum (amounts p) → sum (amounts (consume r p)) + r ≡ sum (amounts p)
unfolding consume
sum-consume zero p h = omega arith
sum-consume (suc r) [] h = absurd (omega arith)
sum-consume (suc r) ((t, a) ∷ p) h = ground (arith, sum-consume (suc r - a) p)

-- It takes it from what has vested too.
pub vested-consume :
    (now : Timestamp) (r : ℕ) (p : Schedule)
    → r ≤ vested now p
    → vested now (consume r p) + r ≡ vested now p
unfolding vested consume
vested-consume now zero p h = omega arith
vested-consume now (suc r) [] h = absurd (omega arith)
vested-consume now (suc r) ((t, a) ∷ p) h = ground (arith, vested-consume now (suc r - a) p)

-- Taking twice is taking the sum.
pub consume-consume : (a b : ℕ) (p : Schedule) → consume b (consume a p) ≡ consume (a + b) p
unfolding consume
consume-consume zero b p = ground arith
consume-consume (suc a) zero p = rw add-zero
consume-consume (suc a) (suc b) [] = ground arith
consume-consume (suc a) (suc b) ((t, x) ∷ p) = ground (arith, consume-consume (suc a - x) (suc b) p)

-- What is left of a schedule of positive amounts has positive amounts.
pub All-consume :
    (r : ℕ) (p : Schedule) → All (λ a. 0 < a) (amounts p) → All (λ a. 0 < a) (amounts (consume r p))
unfolding consume
All-consume zero p h = h
All-consume (suc r) [] h = h
All-consume (suc r) ((t, a) ∷ p) h = ground (arith, All-consume (suc r - a) p h.1)

-- Once every timestamp is past, all has vested.
pub vested-sum :
    (now : Timestamp) (p : Schedule)
    → All (λ t. t ≤ now) (timestamps p)
    → vested now p ≡ sum (amounts p)
unfolding vested
vested-sum now [] past = refl
vested-sum now ((t, a) ∷ p) (le, past) = ground (arith, vested-sum now p past)

consume_past :
    (k a r : ℕ) (t : Timestamp) (p : Schedule)
    → k ≡ a + r
    → 0 < a
    → consume k ((t, a) ∷ p) ≡ consume r p
unfolding consume
consume_past zero a r t p e pos = absurd (omega arith)
consume_past (suc k) a r t p e pos = let left : suc k - a ≡ r = omega arith in ground (arith, left)

-- Taking the whole sum off leaves nothing.
pub consume-sum : (p : Schedule) → All (λ a. 0 < a) (amounts p) → consume (sum (amounts p)) p ≡ []
unfolding consume
consume-sum [] pos = refl
consume-sum ((t, a) ∷ p) (pos, rest) =
    consume_past (a + sum (amounts p)) a (sum (amounts p)) t p refl pos ∙ consume-sum p rest

pub All-timestamps-consume :
    (T r : ℕ) (p : Schedule)
    → All (λ t. t ≤ T) (timestamps p)
    → All (λ t. t ≤ T) (timestamps (consume r p))
unfolding consume
All-timestamps-consume T zero p past = past
All-timestamps-consume T (suc r) [] past = past
All-timestamps-consume T (suc r) ((t, a) ∷ p) (le, past) =
    ground (arith, All-timestamps-consume T (suc r - a) p past)
