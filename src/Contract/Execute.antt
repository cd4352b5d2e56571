-- ===== src/Contract/Execute.antt =====
-- `execute`: a message goes to its handler.
use gringotts.Exec.{Exec, reads}
use gringotts.Cosmos.{Env, MessageInfo, Response}
use gringotts.Host.{Host, Querier}
use gringotts.Msg.{ExecuteMsg}
use gringotts.State.{Store}
use gringotts.Contract.Ops.{execute_delegate, execute_redelegate, execute_undelegate}
use gringotts.Contract.Withdraw.{
  execute_initiate_withdraw_unlocked, execute_initiate_withdraw_reward,
}
use gringotts.Contract.Propose.{
  execute_update_op, execute_propose_update_admin,
  execute_propose_update_unlocked_distribution_address,
  execute_propose_update_staking_reward_distribution_address, execute_propose_emergency_withdraw,
  execute_propose_gov_vote,
}
use gringotts.Contract.Vote.{execute_vote, execute_process_proposal}
use gringotts.Contract.Internal.{
  execute_internal_update_admin, execute_internal_update_unlocked_distribution_address,
  execute_internal_update_staking_reward_distribution_address, execute_internal_withdraw_locked,
}

module _ (h : Host) (querier : Querier) where
  unfoldable pub execute : Env → MessageInfo → ExecuteMsg → Exec Store Response
  execute env info (ExecuteMsg.delegate validator amount) =
      reads (λ s. execute_delegate s info validator amount)
  execute env info (ExecuteMsg.redelegate src_validator dst_validator amount) =
      reads (λ s. execute_redelegate s info src_validator dst_validator amount)
  execute env info (ExecuteMsg.undelegate validator amount) =
      reads (λ s. execute_undelegate s info validator amount)
  execute env info (ExecuteMsg.initiate_withdraw_unlocked amount) =
      execute_initiate_withdraw_unlocked env info amount
  execute env info (ExecuteMsg.update_op op remove_op) = execute_update_op info op remove_op
  execute env info ExecuteMsg.initiate_withdraw_reward =
      execute_initiate_withdraw_reward querier env info
  execute env info (ExecuteMsg.propose_update_admin admin remove_admin) =
      execute_propose_update_admin h env info admin remove_admin
  execute env info (ExecuteMsg.propose_update_unlocked_distribution_address addr) =
      execute_propose_update_unlocked_distribution_address h env info addr
  execute env info (ExecuteMsg.propose_update_staking_reward_distribution_address addr) =
      execute_propose_update_staking_reward_distribution_address h env info addr
  execute env info (ExecuteMsg.propose_emergency_withdraw dst) =
      execute_propose_emergency_withdraw h env info dst
  execute env info (ExecuteMsg.propose_gov_vote gov_proposal_id gov_vote) =
      execute_propose_gov_vote h env info gov_proposal_id gov_vote
  execute env info (ExecuteMsg.vote_proposal proposal_id) = execute_vote h env info proposal_id
  execute env info (ExecuteMsg.process_proposal proposal_id) =
      execute_process_proposal h env info proposal_id
  execute env info (ExecuteMsg.internal_update_admin admin remove_admin) =
      execute_internal_update_admin env info admin remove_admin
  execute env info (ExecuteMsg.internal_update_unlocked_distribution_address addr) =
      execute_internal_update_unlocked_distribution_address env info addr
  execute env info (ExecuteMsg.internal_update_staking_reward_distribution_address addr) =
      execute_internal_update_staking_reward_distribution_address env info addr
  execute env info (ExecuteMsg.internal_withdraw_locked dst) =
      execute_internal_withdraw_locked env info dst
