-- ===== src/UnitTests/Setup.antt =====
-- The constants and the setup of the tests of contract.rs, and the test of `instantiate`.
use gringotts.Base.{ℕ, suc, zero, ⊤, List, [], ◌∷◌, replicate}
use gringotts.Error.{no_admins, no_ops, invalid_tranche}
use gringotts.Exec.{Exec, reads, ◌>>=◌, ◌>>◌}
use gringotts.Cosmos.{Addr, Timestamp, Coin, MessageInfo, Response, time}
use gringotts.Msg.{Tranche, InstantiateMsg}
use gringotts.State.{Store, load}
use gringotts.Contract.Instantiate.{contract_name, contract_version, instantiate}
use gringotts.UnitTests.Equality.{error_eq, version_eq}
use gringotts.UnitTests.Mock.{Mock, mock_info, unwrap, unwrap_err, assert_eq, coin_new}

abbrev pub owner : Addr
owner = "admin0001"

abbrev pub voter1 : Addr
voter1 = "voter0001"

abbrev pub voter2 : Addr
voter2 = "voter0002"

abbrev pub voter3 : Addr
voter3 = "voter0003"

abbrev pub voter4 : Addr
voter4 = "voter0004"

abbrev pub voter5 : Addr
voter5 = "voter0005"

abbrev pub voter6 : Addr
voter6 = "voter0006"

abbrev pub unlock_addr1 : Addr
unlock_addr1 = "unlock0001"

abbrev pub reward_addr1 : Addr
reward_addr1 = "reward0001"

-- The tranche of a message, which differ in the amounts and in the timestamps.
abbrev tranche_of : List ℕ → List Timestamp → Tranche
tranche_of vesting_amounts vesting_timestamps = record {
  denom = "usei";
  vesting_amounts = vesting_amounts;
  vesting_timestamps = vesting_timestamps;
  unlocked_token_distribution_address = unlock_addr1;
  staking_reward_distribution_address = reward_addr1;
}

abbrev instantiate_msg : List Addr → List Addr → Tranche → InstantiateMsg
instantiate_msg admins ops tranche = record {
  admins = admins;
  ops = ops;
  tranche = tranche;
  max_voting_period = time 3600;
  admin_voting_threshold_percentage = 75;
}

-- `&[Coin::new(48000000, "usei".to_string())]`
abbrev pub deposit : List Coin
deposit = coin_new 48000000 "usei" ∷ []

module _ (mock : Mock) where
  open mock use {host, env, plus_seconds}

  -- The loop that pushes `rounds` further timestamps after the last one.
  abbrev monthly_from : Timestamp → ℕ → List Timestamp
  monthly_from last zero = last ∷ []
  monthly_from last (suc rounds) = last ∷ monthly_from (plus_seconds last 2592000) rounds

  abbrev pub setup_test_case : MessageInfo → Exec Store Response
  setup_test_case info =
      let vesting_amounts = 12000000 ∷ replicate 36 1000000 in
      let vesting_timestamps = monthly_from (plus_seconds env.block.time 31536000) 36 in
      instantiate host env info (
        instantiate_msg (voter1 ∷ voter2 ∷ voter3 ∷ voter4 ∷ []) (voter5 ∷ voter6 ∷ [])
          (tranche_of vesting_amounts vesting_timestamps))

  -- The first lines of the other tests: a deposit from `sender`, `setup_test_case(..).unwrap()`.
  abbrev pub set_up_by : Addr → Exec Store Response
  set_up_by sender = unwrap (setup_test_case (mock_info sender deposit))

  abbrev pub test_instantiate_works : Exec Store ⊤
  test_instantiate_works = do
    let info = mock_info owner []
    let now = env.block.time ∷ []
    no_admins_err ←
        unwrap_err
          (instantiate host env info (instantiate_msg [] (voter5 ∷ []) (tranche_of (1 ∷ []) now)))
    assert_eq no_admins_err no_admins
    no_ops_err ←
        unwrap_err
          (instantiate host env info (instantiate_msg (voter1 ∷ []) [] (tranche_of (1 ∷ []) now)))
    assert_eq no_ops_err no_ops
    schedule_err ← unwrap_err (
        instantiate host env info (instantiate_msg (voter1 ∷ []) (voter5 ∷ []) (tranche_of [] now)))
    assert_eq schedule_err (invalid_tranche "mismatched vesting amounts and schedule")
    deposit_err ← unwrap_err (setup_test_case info)
    assert_eq deposit_err (invalid_tranche "insufficient deposit for the vesting plan")
    set_up_by owner
    version ← unwrap (reads (load (λ s. s.contract_info)))
    assert_eq (record { contract = contract_name; version = contract_version }) version
