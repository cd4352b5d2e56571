-- ===== src/Vesting/Refinement.antt =====
-- `collect_vested` on the two lists is `consume` on the schedule.
use native.Mathlib.Nat.{zero-add}
use gringotts.Base.{
  ℕ, zero, suc, ◌-◌, ◌≤◌, ◌<◌, ◌≡◌, ◌∙◌, refl, ap, ltb, leb, if◌then◌else◌, List, [], ◌∷◌, some,
  sum, All, length, drop, length-drop, lt→ltb, le→not_ltb, le→leb, arith, Bool-cases, inl, inr,
}
use gringotts.Word.{u128_mod, sub128_lem, sub128-add128, add128_lem}
use gringotts.Error.{ok, err, no_sufficient_unlocked_tokens}
use gringotts.State.{Store}
use gringotts.Vesting.Collect.{collect_from, subtract_first, save_remaining, collect_vested}
use gringotts.Vesting.Schedule.{Schedule, timestamps, amounts, vested, vested-le-sum, consume}
use gringotts.Vesting.Loop.{whole, partial, collect_from_short, collect_from_enough}

whole-le-length : (r : ℕ) (xs : List ℕ) → whole r xs ≤ length xs
unfolding whole
whole-le-length zero xs = omega arith
whole-le-length (suc r) [] = omega arith
whole-le-length (suc r) (a ∷ xs) = ground (arith, whole-le-length (suc r - a) xs)

drop-whole :
    (r : ℕ) (p : Schedule) → drop (whole r (amounts p)) (timestamps p) ≡ timestamps (consume r p)
unfolding whole consume
drop-whole zero p = refl
drop-whole (suc r) [] = refl
drop-whole (suc r) ((t, a) ∷ p) = ground (arith, drop-whole (suc r - a) p)

subtract_first-drop :
    (r : ℕ) (p : Schedule)
    → sum (amounts p) < u128_mod
    → subtract_first (partial r (amounts p)) (drop (whole r (amounts p)) (amounts p))
      ≡ ok (amounts (consume r p))
unfolding whole partial consume subtract_first
subtract_first-drop zero p h = refl
subtract_first-drop (suc r) [] h = refl
subtract_first-drop (suc r) ((t, a) ∷ p) h =
    ground (arith, sub128_lem a (suc r), subtract_first-drop (suc r - a) p)

length-amounts : (p : Schedule) → length (amounts p) ≡ length (timestamps p)
length-amounts [] = refl
length-amounts (e ∷ p) = omega (arith, length-amounts p)

-- The storage with another schedule.
abbrev pub with_schedule : Schedule → Store → Store
with_schedule p s = record s {
  vesting_timestamps = some (timestamps p);
  vesting_amounts = some (amounts p);
}

nil_of_length : {A : Type 0} (xs : List A) → length xs ≡ 0 → xs ≡ []
nil_of_length [] h = refl
nil_of_length (x ∷ xs) h = absurd (omega arith)

-- When every entry is taken whole nothing is left.
timestamps-consume-nil :
    (d : ℕ) (p : Schedule)
    → length (amounts p) ≤ whole d (amounts p)
    → timestamps (consume d p) ≡ []
timestamps-consume-nil d p h = nil_of_length _ (
    omega (
      arith,
      length-drop (whole d (amounts p)) (timestamps p),
      ap (λ xs. length xs) (drop-whole d p),
      length-amounts p,
    ))

amounts-consume-nil :
    (d : ℕ) (p : Schedule) → length (amounts p) ≤ whole d (amounts p) → amounts (consume d p) ≡ []
amounts-consume-nil d p h = nil_of_length _ (
    omega
      (arith, length-amounts (consume d p), ap (λ xs. length xs) (timestamps-consume-nil d p h)))

-- After the loop has stopped at an entry, the lists that are saved are those of `consume`.
save_remaining-consume :
    (r d : ℕ) (p : Schedule) (s : Store)
    → sum (amounts p) < u128_mod
    → save_remaining r (timestamps p) (amounts p) (r, partial d (amounts p), whole d (amounts p)) s
      ≡ (ok r, with_schedule (consume d p) s)
unfolding save_remaining
save_remaining-consume r d p s h =
    elim (Bool-cases (leb (length (amounts p)) (whole d (amounts p)))) [
      | inl all ↦
          let gone : length (amounts p) ≤ whole d (amounts p) = ground arith in
          rw (
            le→not_ltb r r (omega arith),
            all,
            timestamps-consume-nil d p gone,
            amounts-consume-nil d p gone,
          )
      | inr some_left ↦ rw (
        le→not_ltb r r (omega arith),
        some_left,
        le→leb _ _ (whole-le-length d (amounts p)),
        subtract_first-drop d p h,
        ← length-amounts p,
        le→leb _ _ (whole-le-length d (amounts p)),
        drop-whole d p,
      )
    ]

save_remaining_short :
    (r : ℕ) (ts xs : List ℕ) (loop : ℕ × ℕ × ℕ) (s : Store)
    → loop.0 < r
    → save_remaining r ts xs loop s ≡ (err no_sufficient_unlocked_tokens, s)
unfolding save_remaining
save_remaining_short r ts xs loop s h = rw (lt→ltb _ _ h)

-- A request for nothing stops at the first entry and leaves the schedule alone.
collect_from_zero :
    (now t a : ℕ) (p : Schedule)
    → 0 < a
    → a < u128_mod
    → collect_from now 0 0 (timestamps ((t, a) ∷ p)) (amounts ((t, a) ∷ p)) 0 0 0 ≡ (0, 0, 0)
unfolding collect_from
collect_from_zero now t a p h k = ground (arith, add128_lem 0 a, sub128-add128 a 0 a)

module _ (now r : ℕ) (p : Schedule) (s : Store)
    (has_timestamps : s.vesting_timestamps ≡ some (timestamps p))
    (has_amounts : s.vesting_amounts ≡ some (amounts p)) where
  collect_vested_loaded :
      collect_vested now r s
      ≡ save_remaining r
          (timestamps p)
          (amounts p)
          (collect_from now r 0 (timestamps p) (amounts p) 0 0 0)
          s
  unfolding collect_vested
  collect_vested_loaded = rw (has_timestamps, has_amounts)

  -- A request for more than has vested fails and writes nothing.
  pub collect_vested_short :
      sum (amounts p) < u128_mod
      → vested now p < r
      → collect_vested now r s ≡ (err no_sufficient_unlocked_tokens, s)
  collect_vested_short bound short =
      let loop = collect_from_short now r 0 p 0 0 (omega arith) (omega arith) in
      collect_vested_loaded
      ∙ save_remaining_short r (timestamps p) (amounts p)
          (collect_from now r 0 (timestamps p) (amounts p) 0 0 0) s (omega (arith, loop))

pub collect_vested_enough :
    (now r : ℕ) (p : Schedule) (s : Store)
    → s.vesting_timestamps ≡ some (timestamps p)
    → s.vesting_amounts ≡ some (amounts p)
    → sum (amounts p) < u128_mod
    → All (λ a. 0 < a) (amounts p)
    → r ≤ vested now p
    → collect_vested now r s ≡ (ok r, with_schedule (consume r p) s)
unfolding partial whole
collect_vested_enough now zero [] s ht ha bound pos enough =
    rw (collect_vested_loaded now 0 [] s ht ha) (unfold collect_from save_remaining consume in refl)
collect_vested_enough now zero ((t, a) ∷ p) s ht ha bound pos enough =
    rw
      (
        collect_vested_loaded now 0 ((t, a) ∷ p) s ht ha,
        collect_from_zero now t a p pos.0 (omega arith),
      )
      (save_remaining-consume 0 0 ((t, a) ∷ p) s bound)
collect_vested_enough now (suc d) p s ht ha bound pos enough =
    let loop =
      collect_from_enough now (suc d) 0 p 0 d (omega arith) (omega arith)
        (omega (arith, vested-le-sum now p)) enough in
    rw (collect_vested_loaded now (suc d) p s ht ha, loop, zero-add)
      (save_remaining-consume (suc d) (suc d) p s bound)

-- Where the stored lists are of one length, and so a schedule, with positive amounts whose sum is a u128:
-- `collect_vested` fails with NoSufficientUnlockedTokens and writes nothing when less than the request has
-- vested; otherwise it returns the request, and what is stored is the schedule with the request taken off its
-- front.
pub collect_vested-consume :
    (now r : ℕ) (p : Schedule) (s : Store)
    → s.vesting_timestamps ≡ some (timestamps p)
    → s.vesting_amounts ≡ some (amounts p)
    → sum (amounts p) < u128_mod
    → All (λ a. 0 < a) (amounts p)
    → collect_vested now r s ≡ (
        if ltb (vested now p) r
        then (err no_sufficient_unlocked_tokens, s)
        else (ok r, with_schedule (consume r p) s))
collect_vested-consume now r p s ht ha bound pos = elim (Bool-cases (ltb (vested now p) r)) [
  | inl short ↦ rw short (collect_vested_short now r p s ht ha bound (ground arith))
  | inr enough ↦ rw enough (collect_vested_enough now r p s ht ha bound pos (ground arith))
]
