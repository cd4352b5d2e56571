-- ===== src/Staking.antt =====
-- staking.rs: the messages to the staking and distribution modules, and what the chain says of the
-- contract's delegations.
use gringotts.Base.{ℕ, String, List, [], ◌∷◌, map, Option, none, some, str_eq, if◌then◌else◌}
use gringotts.Word.{add128, sum128}
use gringotts.Error.{Result, ok, ◌>>=◌}
use gringotts.Cosmos.{
  Coin, Env, Response, bank, send, coins, add_message, staking, distribution, StakingMsg,
  DistributionMsg, FullDelegation,
}
use gringotts.Host.{Querier}
use gringotts.Msg.{stakingext, unbonding_delegations}
use gringotts.State.{Store, load}

unfoldable pub delegate : Response → String → ℕ → String → Response
delegate response validator amount denom =
    add_message response
      (staking (StakingMsg.delegate validator (record { denom = denom; amount = amount })))

unfoldable pub redelegate : Response → String → String → ℕ → String → Response
redelegate response src_validator dst_validator amount denom = add_message response (
    staking (
      StakingMsg.redelegate src_validator dst_validator
        (record { denom = denom; amount = amount })))

unfoldable pub undelegate : Response → String → ℕ → String → Response
undelegate response validator amount denom =
    add_message response
      (staking (StakingMsg.undelegate validator (record { denom = denom; amount = amount })))

unfoldable pub withdraw_delegation_rewards : Store → Response → String → ℕ → Result Response
withdraw_delegation_rewards s response validator amount = do
  denom ← load (λ t. t.denom) s
  to_address ← load (λ t. t.staking_reward_address) s
  let new_response =
      add_message response (distribution (DistributionMsg.withdraw_delegator_reward validator))
  ok (add_message new_response (bank (send to_address (coins amount denom))))

unfoldable pub get_all_delegated_validators : Querier → Env → Result (List String)
get_all_delegated_validators querier env = do
  delegations ← querier.query_all_delegations env.address
  ok (map (λ delegation. delegation.validator) delegations)

unfoldable pub get_unbonding_balance : Querier → Env → Result ℕ
get_unbonding_balance querier env = do
  response ←
      querier.query_custom
        (record { route = stakingext; query_data = unbonding_delegations env.address })
  ok (sum128 (map (λ entry. entry.balance) response.entries))

-- The loop of `get_delegation_rewards` over the accumulated rewards.
unfoldable pub rewards_from : String → ℕ → List Coin → ℕ
rewards_from denom reward_amount [] = reward_amount
rewards_from denom reward_amount (reward ∷ rewards) =
    rewards_from denom
      (if str_eq reward.denom denom then add128 reward_amount reward.amount else reward_amount)
      rewards

-- After the query: nothing is accrued where there is no delegation.
unfoldable pub rewards_of : Store → Option FullDelegation → Result ℕ
unfolding rewards_from
rewards_of s none = ok 0
rewards_of s (some delegation) = do
  denom ← load (λ t. t.denom) s
  ok (rewards_from denom 0 delegation.accumulated_rewards)

unfoldable pub get_delegation_rewards : Querier → Store → Env → String → Result ℕ
unfolding rewards_of
get_delegation_rewards querier s env validator = do
  delegation ← querier.query_delegation env.address validator
  rewards_of s delegation
