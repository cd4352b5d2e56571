-- ===== src/UnitTests/Vesting.antt =====
-- The tests of vesting.rs.
use gringotts.Base.{ℕ, ⊤, List, [], ◌∷◌, some, length}
use gringotts.Error.{no_sufficient_unlocked_tokens}
use gringotts.Exec.{Exec, reads, save, ◌>>=◌, ◌>>◌}
use gringotts.Cosmos.{Timestamp, new_response}
use gringotts.State.{Store, load}
use gringotts.Vesting.{collect_vested, distribute_vested}
use gringotts.UnitTests.Equality.{nat_eq, list_eq, error_eq}
use gringotts.UnitTests.Mock.{Mock, unwrap, unwrap_err, assert_eq}

-- `VESTING_TIMESTAMPS.save(..).unwrap()` and `VESTING_AMOUNTS.save(..).unwrap()`, which begin a test.
abbrev save_schedule : List Timestamp → List ℕ → Exec Store ⊤
save_schedule vesting_timestamps vesting_amounts = do
  save (λ s. record s { vesting_timestamps = some vesting_timestamps })
  save (λ s. record s { vesting_amounts = some vesting_amounts })

-- The assertions on what the two items hold afterwards.
abbrev assert_schedule : List Timestamp → List ℕ → Exec Store ⊤
assert_schedule vesting_timestamps vesting_amounts = do
  stored_timestamps ← unwrap (reads (load (λ s. s.vesting_timestamps)))
  assert_eq stored_timestamps vesting_timestamps
  stored_amounts ← unwrap (reads (load (λ s. s.vesting_amounts)))
  assert_eq stored_amounts vesting_amounts

-- `assert_eq!(collected, collect_vested(storage, now, amount).unwrap())`
abbrev assert_collects : ℕ → Timestamp → ℕ → Exec Store ⊤
assert_collects collected now amount = do
  vested ← unwrap (collect_vested now amount)
  assert_eq collected vested

-- The same with `expect_err`.
abbrev assert_collects_nothing : Timestamp → ℕ → Exec Store ⊤
assert_collects_nothing now amount = do
  refusal ← unwrap_err (collect_vested now amount)
  assert_eq no_sufficient_unlocked_tokens refusal

module _ (mock : Mock) where
  open mock use {env, plus_seconds, minus_seconds}

  abbrev now : Timestamp
  now = env.block.time

  abbrev pub test_nothing_to_vest : Exec Store ⊤
  test_nothing_to_vest = do
    save_schedule [] []
    assert_collects 0 now 0
    assert_collects_nothing now 10

  abbrev pub test_vest_single_full : Exec Store ⊤
  test_vest_single_full = do
    save_schedule (now ∷ []) (10 ∷ [])
    assert_collects 10 now 10
    assert_schedule [] []

  abbrev pub test_vest_single_more : Exec Store ⊤
  test_vest_single_more = do
    save_schedule (now ∷ []) (10 ∷ [])
    assert_collects_nothing now 15
    assert_schedule (now ∷ []) (10 ∷ [])

  abbrev pub test_vest_single_partial : Exec Store ⊤
  test_vest_single_partial = do
    save_schedule (now ∷ []) (10 ∷ [])
    assert_collects 5 now 5
    assert_schedule (now ∷ []) (5 ∷ [])

  abbrev pub test_not_vest_single : Exec Store ⊤
  test_not_vest_single = do
    save_schedule (plus_seconds now 1 ∷ []) (10 ∷ [])
    assert_collects_nothing now 10
    assert_schedule (plus_seconds now 1 ∷ []) (10 ∷ [])

  abbrev pub test_vest_multiple : Exec Store ⊤
  test_vest_multiple = do
    save_schedule (minus_seconds now 1 ∷ now ∷ plus_seconds now 1 ∷ []) (10 ∷ 9 ∷ 11 ∷ [])
    assert_collects 18 now 18
    assert_schedule (now ∷ plus_seconds now 1 ∷ []) (1 ∷ 11 ∷ [])
    assert_collects 2 (plus_seconds now 1) 2
    assert_schedule (plus_seconds now 1 ∷ []) (10 ∷ [])

  abbrev pub test_vest_multiple_all : Exec Store ⊤
  test_vest_multiple_all = do
    save_schedule (minus_seconds now 2 ∷ minus_seconds now 1 ∷ now ∷ []) (10 ∷ 9 ∷ 11 ∷ [])
    assert_collects 30 now 30
    assert_schedule [] []

  abbrev pub test_vest_multiple_none : Exec Store ⊤
  test_vest_multiple_none = do
    let later = plus_seconds now 1 ∷ plus_seconds now 2 ∷ plus_seconds now 3 ∷ []
    save_schedule later (10 ∷ 9 ∷ 11 ∷ [])
    assert_collects_nothing now 30
    assert_schedule later (10 ∷ 9 ∷ 11 ∷ [])

abbrev pub test_distribute_vested_zero_amount : Exec Store ⊤
test_distribute_vested_zero_amount = do
  response ← unwrap (reads (distribute_vested 0 new_response))
  assert_eq (length response.messages) 0

abbrev pub test_distribute_vested : Exec Store ⊤
test_distribute_vested = do
  save (λ s. record s { denom = some "usei" })
  save (λ s. record s { unlock_distribution_address = some "unlock_address" })
  response ← unwrap (reads (distribute_vested 20 new_response))
  assert_eq (length response.messages) 1
