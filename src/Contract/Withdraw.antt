-- ===== src/Contract/Withdraw.antt =====
-- The withdrawals of an operator: unlocked tokens, and staking rewards.
use gringotts.Base.{ℕ, zero, suc, String, List, [], ◌∷◌, some}
use gringotts.Word.{add128}
use gringotts.Exec.{Exec, pure, reads, ◌>>=◌, ◌>>◌}
use gringotts.Cosmos.{Env, MessageInfo, Response, new_response, bank, send, coins, add_message}
use gringotts.Host.{Querier}
use gringotts.Permission.{authorize_op}
use gringotts.Staking.{
  get_all_delegated_validators, get_delegation_rewards, withdraw_delegation_rewards,
}
use gringotts.State.{Store, load, update}
use gringotts.Vesting.{collect_vested, distribute_vested}
use gringotts.Contract.Rewards.{calculate_withdrawn_rewards}

unfoldable pub execute_initiate_withdraw_unlocked : Env → MessageInfo → ℕ → Exec Store Response
unfolding authorize_op
execute_initiate_withdraw_unlocked env info amount = do
  reads (λ s. authorize_op s info.sender)
  vested_amount ← collect_vested env.block.time amount
  update (λ s. s.withdrawn_unlocked) (λ new s. record s { withdrawn_unlocked = some new })
      (λ old. add128 old vested_amount)
  reads (distribute_vested vested_amount new_response)

-- The rewards that are in the bank already are sent on.
unfoldable pub send_withdrawn_rewards : ℕ → Response → Exec Store Response
send_withdrawn_rewards zero response = pure response
send_withdrawn_rewards (suc n) response = do
  to_address ← reads (load (λ t. t.staking_reward_address))
  denom ← reads (load (λ t. t.denom))
  pure (add_message response (bank (send to_address (coins (suc n) denom))))

-- The loop over the validators: each one's rewards are withdrawn and sent on.
unfoldable pub withdraw_from_each :
    Querier → Env → List String → Response → ℕ → Exec Store (Response × ℕ)
withdraw_from_each querier env [] response total = pure (response, total)
withdraw_from_each querier env (validator ∷ rest) response total = do
  withdrawable_amount ← reads (λ s. get_delegation_rewards querier s env validator)
  response' ← reads (λ s. withdraw_delegation_rewards s response validator withdrawable_amount)
  withdraw_from_each querier env rest response' (add128 total withdrawable_amount)

unfoldable pub execute_initiate_withdraw_reward : Querier → Env → MessageInfo → Exec Store Response
unfolding authorize_op send_withdrawn_rewards withdraw_from_each
execute_initiate_withdraw_reward querier env info = do
  reads (λ s. authorize_op s info.sender)
  withdrawn ← reads (λ s. calculate_withdrawn_rewards querier s env)
  response ← send_withdrawn_rewards withdrawn new_response
  validators ← reads (λ s. get_all_delegated_validators querier env)
  (response', total) ← withdraw_from_each querier env validators response withdrawn
  update (λ s. s.withdrawn_staking_rewards)
      (λ new s. record s { withdrawn_staking_rewards = some new }) (λ old. add128 old total)
  pure response'
