-- ===== src/Tests/Handlers.antt =====
-- Runs of the unit tests of contract.rs on messages.
use gringotts.Base.{◌≡◌, refl, to_string}
use gringotts.Word.{add64, add128, sub128, sum128}
use gringotts.Error.{ok}
use gringotts.Vesting.{collect_vested, distribute_vested}
use gringotts.Tranche.{validate}
use gringotts.Storage.{may_load, insert, remove}
use gringotts.State.{get_number_of_admins, get_number_of_ops, next_proposal_id}
use gringotts.Permission.{authorize_op, authorize_admin, authorize_self_call}
use gringotts.Staking.{
  get_delegation_rewards, get_all_delegated_validators, get_unbonding_balance,
  withdraw_delegation_rewards,
}
use gringotts.Contract.Instantiate.{instantiate}
use gringotts.Contract.Ops.{execute_delegate, execute_redelegate, execute_undelegate}
use gringotts.Contract.Withdraw.{
  execute_initiate_withdraw_unlocked, execute_initiate_withdraw_reward,
}
use gringotts.Contract.Rewards.{calculate_withdrawn_rewards}
use gringotts.Contract.Execute.{execute}
use gringotts.Contract.Propose.{
  execute_propose_update_admin, execute_propose_update_unlocked_distribution_address,
  execute_propose_update_staking_reward_distribution_address, execute_propose_emergency_withdraw,
  execute_propose_gov_vote, execute_update_op, execute_propose, debug_status, debug_vote,
}
use gringotts.Contract.Internal.{
  execute_internal_update_admin, execute_internal_update_unlocked_distribution_address,
  execute_internal_update_staking_reward_distribution_address, execute_internal_withdraw_locked,
}
use gringotts.Contract.Vote.{execute_vote, execute_process_proposal}
use gringotts.Tests.Mocked.{mock, outcome}
use gringotts.UnitTests.Operators
use gringotts.UnitTests.Proposals
use gringotts.UnitTests.Processing
use gringotts.UnitTests.Internal

methods : Unit {0}
unfolding collect_vested distribute_vested add64 add128 sub128 sum128 validate may_load insert
    remove get_number_of_admins get_number_of_ops next_proposal_id authorize_op authorize_admin
    authorize_self_call get_delegation_rewards get_all_delegated_validators get_unbonding_balance
    withdraw_delegation_rewards instantiate execute execute_delegate execute_redelegate
    execute_undelegate execute_initiate_withdraw_unlocked execute_initiate_withdraw_reward
    calculate_withdrawn_rewards execute_propose_update_admin
    execute_propose_update_unlocked_distribution_address
    execute_propose_update_staking_reward_distribution_address execute_propose_emergency_withdraw
    execute_propose_gov_vote execute_update_op execute_propose debug_status debug_vote
    execute_internal_update_admin execute_internal_update_unlocked_distribution_address
    execute_internal_update_staking_reward_distribution_address execute_internal_withdraw_locked
    execute_vote execute_process_proposal to_string
methods = tt

operators_runs :
    (outcome (Operators.delegate_work mock) ≡ ok tt)
    × (outcome (Operators.delegate_unauthorized mock) ≡ ok tt)
    × (outcome (Operators.redelegate_work mock) ≡ ok tt)
    × (outcome (Operators.redelegate_unauthorized mock) ≡ ok tt)
    × (outcome (Operators.undelegate_work mock) ≡ ok tt)
    × (outcome (Operators.undelegate_unauthorized mock) ≡ ok tt)
    × (outcome (Operators.initiate_withdraw_unlocked_work mock) ≡ ok tt)
    × (outcome (Operators.initiate_withdraw_unlocked_unauthorized mock) ≡ ok tt)
    × (outcome (Operators.initiate_withdraw_reward_work mock) ≡ ok tt)
    × (outcome (Operators.initiate_withdraw_reward_unauthorized mock) ≡ ok tt)
unfolding methods
operators_runs = (refl, refl, refl, refl, refl, refl, refl, refl, refl, refl)

proposals_runs :
    (outcome (Proposals.test_propose_update_admin_works mock) ≡ ok tt)
    × (outcome (Proposals.test_propose_update_admin_unauthorized mock) ≡ ok tt)
    × (outcome (Proposals.test_propose_update_unlocked_distribution_address_works mock) ≡ ok tt)
    × (outcome (Proposals.test_propose_update_stakign_reward_distribution_address_works mock)
        ≡ ok tt)
    × (outcome (Proposals.test_propose_emergency_withdraw_works mock) ≡ ok tt)
    × (outcome (Proposals.test_propose_emergency_withdraw_unauthorized mock) ≡ ok tt)
    × (outcome (Proposals.test_propose_gov_vote_works mock) ≡ ok tt)
unfolding methods
proposals_runs = (refl, refl, refl, refl, refl, refl, refl)

processing_runs :
    (outcome (Processing.test_vote_works mock) ≡ ok tt)
    × (outcome (Processing.test_vote_expired mock) ≡ ok tt)
    × (outcome (Processing.test_process_update_admin_works mock) ≡ ok tt)
    × (outcome (Processing.test_process_proposal_premature mock) ≡ ok tt)
    × (outcome (Processing.test_process_update_admin_double_process mock) ≡ ok tt)
    × (outcome (Processing.test_process_gov_vote_works mock) ≡ ok tt)
unfolding methods
processing_runs = (refl, refl, refl, refl, refl, refl)

internal_runs :
    (outcome (Internal.test_execute_internal_update_admin_works mock) ≡ ok tt)
    × (outcome (Internal.test_execute_internal_update_admin_remove_works mock) ≡ ok tt)
    × (outcome (Internal.test_execute_internal_update_admin_unauthorized mock) ≡ ok tt)
    × (outcome (Internal.test_execute_update_op_works mock) ≡ ok tt)
    × (outcome (Internal.test_execute_update_op_remove_works mock) ≡ ok tt)
    × (outcome (Internal.test_execute_update_op_unauthorized mock) ≡ ok tt)
    × (outcome (Internal.test_execute_internal_withdraw_locked_works mock) ≡ ok tt)
    × (outcome (Internal.test_execute_internal_withdraw_locked_unauthorized mock) ≡ ok tt)
unfolding methods
internal_runs = (refl, refl, refl, refl, refl, refl, refl, refl)
