-- ===== src/UnitTests/Operators.antt =====
-- The tests of contract.rs on the messages of the operators.
use gringotts.Base.{◌+◌, ◌-◌, ⊤, [], ◌∷◌, length}
use gringotts.Error.{ok, unauthorized}
use gringotts.Exec.{Exec, pure, reads, ◌>>=◌, ◌>>◌}
use gringotts.Cosmos.{Env, FullDelegation}
use gringotts.Host.{Querier}
use gringotts.Msg.{ExecuteMsg, UnbondingDelegationEntry}
use gringotts.State.{Store, load}
use gringotts.Contract.Execute.{execute}
use gringotts.UnitTests.Equality.{nat_eq, error_eq}
use gringotts.UnitTests.Mock.{Mock, mock_info, unwrap, unwrap_err, assert_eq, coin_new}
use gringotts.UnitTests.Setup.{owner, voter5, deposit, set_up_by}

module _ (mock : Mock) where
  open mock use {
    host, env, querier, plus_seconds, update_staking, update_balance, with_custom_handler,
  }

  -- The message succeeds after a setup by the same operator, with one message in its response.
  abbrev assert_works : ExecuteMsg → Exec Store ⊤
  assert_works msg = do
    set_up_by mock voter5
    res ← unwrap (execute host querier env (mock_info voter5 deposit) msg)
    assert_eq 1 (length res.messages)

  -- The message fails after a setup by the owner, who is no operator.
  abbrev assert_fails : ExecuteMsg → Exec Store ⊤
  assert_fails msg = do
    set_up_by mock owner
    unwrap_err (execute host querier env (mock_info owner deposit) msg)
    pure tt

  abbrev pub delegate_work : Exec Store ⊤
  delegate_work = assert_works (ExecuteMsg.delegate "val" 100)

  abbrev pub delegate_unauthorized : Exec Store ⊤
  delegate_unauthorized = assert_fails (ExecuteMsg.delegate "val" 100)

  abbrev pub redelegate_work : Exec Store ⊤
  redelegate_work = assert_works (ExecuteMsg.redelegate "val1" "val2" 100)

  abbrev pub redelegate_unauthorized : Exec Store ⊤
  redelegate_unauthorized = assert_fails (ExecuteMsg.redelegate "val1" "val2" 100)

  abbrev pub undelegate_work : Exec Store ⊤
  undelegate_work = assert_works (ExecuteMsg.undelegate "val" 100)

  abbrev pub undelegate_unauthorized : Exec Store ⊤
  undelegate_unauthorized = assert_fails (ExecuteMsg.undelegate "val" 100)

  abbrev year_later : Env
  year_later = record env {
    block = record env.block { time = plus_seconds env.block.time 31536000 };
  }

  abbrev pub initiate_withdraw_unlocked_work : Exec Store ⊤
  initiate_withdraw_unlocked_work = do
    set_up_by mock voter5
    let msg = ExecuteMsg.initiate_withdraw_unlocked 12000000
    res ← unwrap (execute host querier year_later (mock_info voter5 deposit) msg)
    assert_eq 1 (length res.messages)
    withdrawn ← unwrap (reads (load (λ s. s.withdrawn_unlocked)))
    assert_eq 12000000 withdrawn

  -- The test makes a later `env` too, and calls with `mock_env()`.
  abbrev pub initiate_withdraw_unlocked_unauthorized : Exec Store ⊤
  initiate_withdraw_unlocked_unauthorized = do
    set_up_by mock owner
    let msg = ExecuteMsg.initiate_withdraw_unlocked 12000000
    refusal ← unwrap_err (execute host querier env (mock_info owner deposit) msg)
    assert_eq refusal unauthorized

  -- The querier of the next test: two validators, two delegations of the contract, its balance, and a
  -- handler that answers with one unbonding entry.
  abbrev staked : Querier
  staked =
      let first : FullDelegation = record {
        validator = "val1";
        amount = coin_new 1000000 "usei";
        accumulated_rewards = coin_new 10 "usei" ∷ coin_new 20 "usei" ∷ [];
      } in
      let second : FullDelegation = record {
        validator = "val2";
        amount = coin_new 500000 "usei";
        accumulated_rewards = coin_new 5 "usei" ∷ [];
      } in
      let entry : UnbondingDelegationEntry = record {
        creation_height = 1;
        completion_time = "";
        initial_balance = 10;
        balance = 10;
      } in
      with_custom_handler (λ request. ok (record { entries = entry ∷ [] }))
        (update_balance env.address (coin_new (48000000 - 1500000 + 100) "usei" ∷ []) (
          update_staking "usei" ("val1" ∷ "val2" ∷ [])
            ((env.address, first) ∷ (env.address, second) ∷ []) querier))

  abbrev pub initiate_withdraw_reward_work : Exec Store ⊤
  initiate_withdraw_reward_work = do
    set_up_by mock voter5
    res ←
        unwrap
          (execute host staked env (mock_info voter5 deposit) ExecuteMsg.initiate_withdraw_reward)
    assert_eq 5 (length res.messages)
    withdrawn ← unwrap (reads (load (λ s. s.withdrawn_staking_rewards)))
    assert_eq (35 + 110) withdrawn

  abbrev pub initiate_withdraw_reward_unauthorized : Exec Store ⊤
  initiate_withdraw_reward_unauthorized = assert_fails ExecuteMsg.initiate_withdraw_reward
