-- ===== src/UnitTests/Tranche.antt =====
-- The tests of data_structure.rs.
use gringotts.Base.{ℕ, ◌+◌, ⊤, Bool, true, false, List, [], ◌∷◌, map, String}
use gringotts.Error.{Result, ok}
use gringotts.Exec.{Exec, lift, ◌>>=◌}
use gringotts.Cosmos.{Addr, Timestamp, Coin}
use gringotts.Msg.{Tranche}
use gringotts.State.{Store}
use gringotts.Tranche.{hundred_years_in_seconds, validate}
use gringotts.UnitTests.Mock.{Mock, attempt, assert, is_invalid_tranche}

abbrev unlock_addr1 : Addr
unlock_addr1 = "unlock0001"

-- The tranche of each test, which differ in the amounts and in the timestamps.
abbrev tranche_of : List ℕ → List Timestamp → Tranche
tranche_of vesting_amounts vesting_timestamps = record {
  vesting_amounts = vesting_amounts;
  unlocked_token_distribution_address = unlock_addr1;
  vesting_timestamps = vesting_timestamps;
  denom = "token";
  staking_reward_distribution_address = unlock_addr1;
}

-- `vec![Coin { denom: "token".to_string(), amount: Uint128::new(amount) }]`
abbrev token : ℕ → List Coin
token amount = record { denom = "token"; amount = amount } ∷ []

-- `result.is_ok()`
abbrev is_ok : Result ⊤ → Bool
is_ok (ok a) = true
is_ok _ = false

module _ (mock : Mock) where
  open mock use {host, env, from_seconds, plus_nanos, minus_seconds}

  -- `Timestamp::from_seconds(n).plus_nanos(env.block.time.nanos())`, a `Timestamp` being its nanoseconds.
  abbrev in_seconds : ℕ → Timestamp
  in_seconds n = plus_nanos (from_seconds n) env.block.time

  abbrev assert_invalid : Tranche → List Coin → String → Exec Store ⊤
  assert_invalid tranche funds msg = do
    result ← attempt (lift (validate host tranche env funds))
    assert (is_invalid_tranche result msg)

  abbrev pub test_validate_success : Exec Store ⊤
  test_validate_success = do
    let timestamps = map in_seconds (1 ∷ 2 ∷ 3 ∷ [])
    result ←
        attempt
          (lift (validate host (tranche_of (100 ∷ 200 ∷ 300 ∷ []) timestamps) env (token 600)))
    assert (is_ok result)

  abbrev pub test_validate_mismatched_amount_timestamp_lengths : Exec Store ⊤
  test_validate_mismatched_amount_timestamp_lengths =
      assert_invalid (tranche_of (100 ∷ 200 ∷ []) (map in_seconds (1 ∷ 2 ∷ 3 ∷ []))) []
        "mismatched vesting amounts and schedule"

  abbrev pub test_validate_empty_amounts_and_timestamps : Exec Store ⊤
  test_validate_empty_amounts_and_timestamps =
      assert_invalid (tranche_of [] []) [] "nothing to vest"

  abbrev pub test_validate_zero_vesting_amount : Exec Store ⊤
  test_validate_zero_vesting_amount =
      assert_invalid (tranche_of (0 ∷ 100 ∷ []) (map in_seconds (1 ∷ 2 ∷ []))) (token 100)
        "zero vesting amount is not allowed"

  abbrev pub test_validate_insufficient_deposit : Exec Store ⊤
  test_validate_insufficient_deposit =
      assert_invalid (tranche_of (200 ∷ 200 ∷ []) (map in_seconds (1 ∷ 2 ∷ []))) (token 300)
        "insufficient deposit for the vesting plan"

  abbrev pub test_validate_non_monotonic_vesting_timestamps : Exec Store ⊤
  test_validate_non_monotonic_vesting_timestamps =
      assert_invalid (tranche_of (100 ∷ 100 ∷ []) (map in_seconds (2 ∷ 1 ∷ []))) (token 200)
        "vesting schedule must be monotonic increasing"

  abbrev pub test_validate_timestamps_too_early : Exec Store ⊤
  test_validate_timestamps_too_early =
      assert_invalid (tranche_of (100 ∷ []) (minus_seconds (in_seconds 2) 3 ∷ [])) (token 200)
        "Timestamp nanoseconds are out of range"

  abbrev pub test_validate_timestamps_too_late : Exec Store ⊤
  test_validate_timestamps_too_late =
      assert_invalid (tranche_of (100 ∷ []) (in_seconds (hundred_years_in_seconds + 1) ∷ []))
        (token 200) "Timestamp is too far in the future"
