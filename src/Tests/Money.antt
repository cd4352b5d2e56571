-- ===== src/Tests/Money.antt =====
-- The withdrawals and the rewards at a concrete store.
use gringotts.Base.{◌↔◌, ℕ, ◌+◌, ◌-◌, ◌≤◌, ◌≡◌, ◌⊎◌, refl, some, String, [], ◌∷◌, List, arith}
use gringotts.Error.{ok, IsOk}
use gringotts.Cosmos.{Response, Delegation, new_response, add_message, bank, send}
use gringotts.Host.{Querier}
use gringotts.Msg.{ShowTotalVestedResponse, ExecuteMsg, UnbondingDelegationsResponse, empty_struct}
use gringotts.Storage.{may_load}
use gringotts.Storage.Keys.{string_key}
use gringotts.State.{Store}
use gringotts.Vesting.Schedule.{vested, consume}
use gringotts.Contract.Withdraw.{
  execute_initiate_withdraw_reward, execute_initiate_withdraw_unlocked,
}
use gringotts.Contract.Internal.{execute_internal_withdraw_locked}
use gringotts.Contract.Rewards.{calculate_withdrawn_rewards}
use gringotts.Contract.Execute.{execute}
use gringotts.Accounting.Sound.{IsBalanced}
use gringotts.Accounting.Withdraw.{withdraw_unlocked_pays, withdraw_locked_pays}
use gringotts.Accounting.Atomic.{Atomic, execute-Atomic}
use gringotts.Vesting.{total_vested_amount}
use gringotts.Word.{add128, sum128, sub128}
use gringotts.Staking.{
  get_unbonding_balance, get_all_delegated_validators, get_delegation_rewards,
  withdraw_delegation_rewards,
}
use gringotts.Contract.Query.{query_total_vested}
use gringotts.Accounting.Reported.{withdraw_unlocked-query_total_vested, query_total_vested-le}
use gringotts.Accounting.Sent.{withdraw_reward-sent}
use gringotts.Accounting.Surplus.{calculate_withdrawn_rewards-largest}
use gringotts.Tests.Fixtures.{host, querier, env_at, sent_by, usei, blank}

-- Of 40 tokens 10 have been withdrawn; 10 and 9 have vested at the third second, and 11 have not.
abbrev pub holding : Store
holding = record blank {
  denom = some "usei";
  vesting_timestamps = some (2000000000 ∷ 3000000000 ∷ 4000000000 ∷ []);
  vesting_amounts = some (10 ∷ 9 ∷ 11 ∷ []);
  total_amount = some 40;
  unlock_distribution_address = some "unlock1";
  staking_reward_address = some "reward1";
  withdrawn_staking_rewards = some 0;
  withdrawn_unlocked = some 10;
  withdrawn_locked = some 0;
  ops = ("voter5", empty_struct) ∷ [];
}

abbrev pub holding-IsBalanced : IsBalanced holding
holding-IsBalanced = record {
  denom = "usei";
  schedule = (2000000000, 10) ∷ (3000000000, 9) ∷ (4000000000, 11) ∷ [];
  total = 40;
  unlock_address = "unlock1";
  reward_address = "reward1";
  rewards = 0;
  unlocked = 10;
  locked = 0;
  has_denom = refl;
  has_timestamps = refl;
  has_amounts = refl;
  has_total = refl;
  has_unlock_address = refl;
  has_reward_address = refl;
  has_rewards = refl;
  has_unlocked = refl;
  has_locked = refl;
  positive = (omega arith, (omega arith, (omega arith, tt)));
  balance = refl;
  total_u128 = omega arith;
}

abbrev paid : String → ℕ → Response
paid to n = add_message new_response (bank (send to (usei n ∷ [])))

withdraw_unlocked_pays_example :
    execute_initiate_withdraw_unlocked (env_at 3000000000) (sent_by "voter5") 12 holding ≡ (
      ok (paid "unlock1" 12),
      record holding {
        vesting_timestamps = some (3000000000 ∷ 4000000000 ∷ []);
        vesting_amounts = some (7 ∷ 11 ∷ []);
        withdrawn_unlocked = some 22;
      },
    )
unfolding may_load vested consume
withdraw_unlocked_pays_example =
    withdraw_unlocked_pays (env_at 3000000000) (sent_by "voter5") 12 holding holding-IsBalanced refl
      (omega arith)

withdraw_locked_pays_example :
    execute_internal_withdraw_locked (env_at 3000000000) (sent_by "contract") "safe" holding ≡ (
      ok (paid "safe" 30),
      record holding {
        vesting_timestamps = some [];
        vesting_amounts = some [];
        withdrawn_locked = some 30;
      },
    )
withdraw_locked_pays_example =
    withdraw_locked_pays (env_at 3000000000) (sent_by "contract") "safe" holding holding-IsBalanced
      refl

execute-Atomic_example : Atomic holding (
    execute host querier
      (env_at 3000000000)
      (sent_by "voter5")
      (ExecuteMsg.initiate_withdraw_unlocked 20)
      holding)
execute-Atomic_example =
    execute-Atomic host querier (env_at 3000000000) (sent_by "voter5")
      (ExecuteMsg.initiate_withdraw_unlocked 20) holding holding-IsBalanced

abbrev delegations : List Delegation
delegations =
    record { validator = "val1"; amount = usei 8 }
    ∷ record { validator = "val2"; amount = record { denom = "other"; amount = 100 } }
    ∷ []

abbrev unbonding : UnbondingDelegationsResponse
unbonding = record {
  entries =
      record { creation_height = 1; completion_time = ""; initial_balance = 2; balance = 2 } ∷ [];
}

abbrev answering : Querier
answering = record querier {
  query_balance = λ addr denom. ok (usei 25);
  query_all_delegations = λ addr. ok delegations;
  query_custom = λ request. ok unbonding;
}

calculate_withdrawn_rewards-largest_example :
    (rewards : ℕ) × (calculate_withdrawn_rewards answering holding (env_at 3000000000) ≡ ok rewards)
    × (rewards ≤ 25)
    × (30 ≤ 10 + (25 - rewards))
    × ((rewards ≡ 25) ⊎ (30 ≡ 10 + (25 - rewards)))
calculate_withdrawn_rewards-largest_example =
    calculate_withdrawn_rewards-largest answering (env_at 3000000000) holding holding-IsBalanced
      (usei 25) delegations unbonding refl refl refl (omega arith) (omega arith) (omega arith)

abbrev reported : ShowTotalVestedResponse
reported = record { vested_amount = 19 }

withdraw_unlocked-query_total_vested_example :
    IsOk (execute_initiate_withdraw_unlocked (env_at 3000000000) (sent_by "voter5") 12 holding).0
    ↔ (12 ≤ reported.vested_amount)
unfolding may_load query_total_vested total_vested_amount add128
withdraw_unlocked-query_total_vested_example =
    withdraw_unlocked-query_total_vested (env_at 3000000000) (sent_by "voter5") holding
      holding-IsBalanced {shown = reported} refl refl 12

abbrev pub rewarding : Querier
rewarding = record answering {
  query_delegation = λ addr validator.
      ok (
        some
          (record { validator = validator; amount = usei 8; accumulated_rewards = usei 3 ∷ [] }));
}

-- Five tokens of rewards lie in the bank, and three are accrued with each of two validators.
withdraw_reward-sent_example :
    (execute_initiate_withdraw_reward rewarding (env_at 3000000000) (sent_by "voter5") holding).1
    ≡ record holding { withdrawn_staking_rewards = some 11 }
unfolding execute_initiate_withdraw_reward calculate_withdrawn_rewards may_load
    get_unbonding_balance add128 sum128 sub128 get_all_delegated_validators get_delegation_rewards
    withdraw_delegation_rewards
withdraw_reward-sent_example =
    withdraw_reward-sent holding holding-IsBalanced rewarding (env_at 3000000000) (sent_by "voter5")
      refl

-- 10 and 9 of 30 tokens have vested at the third second, and 11 more at the fourth.
query_total_vested-le_example :
    (shown shown' : ShowTotalVestedResponse) × (query_total_vested (env_at 3000000000) holding
      ≡ ok shown)
    × (query_total_vested (env_at 4000000000) holding ≡ ok shown')
    × (shown.vested_amount ≤ shown'.vested_amount)
    × (10 + 0 + shown'.vested_amount ≤ 40)
query_total_vested-le_example =
    query_total_vested-le holding holding-IsBalanced (env_at 3000000000) (env_at 4000000000)
      (omega arith)
