-- ===== src/Tests/Vesting.antt =====
-- The vesting code at concrete schedules, those of the tests of vesting.rs among them.
use gringotts.Base.{◌-◌, ◌≡◌, refl, [], ◌∷◌, arith, if◌then◌else◌, ltb}
use gringotts.Error.{ok, err, no_sufficient_unlocked_tokens}
use gringotts.Word.{add128, sub128}
use gringotts.State.{Store}
use gringotts.Vesting.{collect_vested, total_vested_amount}
use gringotts.Vesting.Schedule.{Schedule, vested, consume}
use gringotts.Vesting.Refinement.{with_schedule, collect_vested-consume}
use gringotts.Vesting.Totals.{total-collect}
use gringotts.Tests.Fixtures.{blank}

abbrev schedule : Schedule
schedule = (100, 10) ∷ (200, 9) ∷ (300, 11) ∷ []

abbrev vesting : Store
vesting = with_schedule schedule blank

vest_multiple :
    collect_vested 200 18 vesting ≡ (ok 18, with_schedule ((200, 1) ∷ (300, 11) ∷ []) blank)
unfolding collect_vested add128 sub128
vest_multiple = refl

vest_too_much : collect_vested 200 20 vesting ≡ (err no_sufficient_unlocked_tokens, vesting)
unfolding collect_vested add128 sub128
vest_too_much = refl

vest_all : collect_vested 300 30 vesting ≡ (ok 30, with_schedule [] blank)
unfolding collect_vested add128 sub128
vest_all = refl

collect_vested-consume_example : collect_vested 200 18 vesting ≡ (
    if ltb (vested 200 schedule) 18
    then (err no_sufficient_unlocked_tokens, vesting)
    else (ok 18, with_schedule (consume 18 schedule) vesting))
collect_vested-consume_example =
    collect_vested-consume 200 18 schedule vesting refl refl (omega arith) (omega arith)

total-collect_example :
    (total_vested_amount 300 vesting ≡ ok (vested 300 schedule))
    × (total_vested_amount 300 (collect_vested 200 18 vesting).1 ≡ ok (vested 300 schedule - 18))
unfolding vested
total-collect_example =
    total-collect 200 18 schedule vesting refl refl (omega arith) (omega arith) (omega arith) 300
      (omega arith)
