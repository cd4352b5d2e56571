-- ===== src/Access.antt =====
-- Who may send which message: an operator, an admin, or the contract itself.
use gringotts.Base.{◌≡◌, ◌≢◌, none, arith, refl, String, List, str_eq_iff}
use gringotts.Error.{Result, ok, err, panic, IsOk}
use gringotts.Exec.{lift, ◌>>=◌}
use gringotts.Cosmos.{Binary, Env, MessageInfo, CosmosMsg}
use gringotts.Host.{Host, Querier}
use gringotts.Storage.{may_load}
use gringotts.Storage.Keys.{string_key}
use gringotts.Msg.{ExecuteMsg}
use gringotts.Permission.{authorize_op, authorize_admin, authorize_self_call}
use gringotts.State.{Store}
use gringotts.Contract.Ops.{execute_delegate, execute_redelegate, execute_undelegate}
use gringotts.Contract.Withdraw.{
  execute_initiate_withdraw_unlocked, execute_initiate_withdraw_reward,
}
use gringotts.Contract.Propose.{
  execute_update_op, execute_propose, execute_propose_update_admin,
  execute_propose_update_unlocked_distribution_address,
  execute_propose_update_staking_reward_distribution_address, execute_propose_emergency_withdraw,
  execute_propose_gov_vote,
}
use gringotts.Contract.Vote.{execute_vote, execute_process_proposal}
use gringotts.Contract.Internal.{
  execute_internal_update_admin, execute_internal_update_unlocked_distribution_address,
  execute_internal_update_staking_reward_distribution_address, execute_internal_withdraw_locked,
}
use gringotts.Contract.Execute.{execute}

pub data Role : Type 0 where
  operator administrator contract_itself : Role

abbrev pub required : ExecuteMsg → Role
required (ExecuteMsg.delegate _ _) = operator
required (ExecuteMsg.redelegate _ _ _) = operator
required (ExecuteMsg.undelegate _ _) = operator
required (ExecuteMsg.initiate_withdraw_unlocked _) = operator
required ExecuteMsg.initiate_withdraw_reward = operator
required (ExecuteMsg.internal_update_admin _ _) = contract_itself
required (ExecuteMsg.internal_update_unlocked_distribution_address _) = contract_itself
required (ExecuteMsg.internal_update_staking_reward_distribution_address _) = contract_itself
required (ExecuteMsg.internal_withdraw_locked _) = contract_itself
required _ = administrator

abbrev pub Lacks : Role → Env → MessageInfo → Store → Type 0
Lacks operator env info s = may_load info.sender s.ops ≡ none
Lacks administrator env info s = may_load info.sender s.admins ≡ none
Lacks contract_itself env info s = env.address ≢ info.sender

-- The call does not succeed, and writes nothing, not even before its error.
abbrev pub Refuses : {A : Type 0} → Store → Result A × Store → Type 0
Refuses s (r, s') = (IsOk r → ⊥) × (s' ≡ s)

module _ (env : Env) (info : MessageInfo) (s : Store) where
  module _ (h : Host) (outsider : may_load info.sender s.admins ≡ none) where
    propose-Refuses :
        (title : String) (msgs : List CosmosMsg)
        → Refuses s (execute_propose h env info title msgs s)
    unfolding execute_propose authorize_admin
    propose-Refuses title msgs = ground arith

    lifted-Refuses :
        (r : Result Binary) (title : String) (msgs : Binary → List CosmosMsg)
        → Refuses s ((lift r >>= λ b. execute_propose h env info title (msgs b)) s)
    lifted-Refuses (ok b) title msgs = propose-Refuses title (msgs b)
    lifted-Refuses (err e) title msgs = (λ p. p, refl)
    lifted-Refuses panic title msgs = (λ p. p, refl)

  -- A caller without the role that a message needs gets no success, and nothing is written.
  pub execute-Refuses :
      (h : Host) (querier : Querier) (msg : ExecuteMsg)
      → Lacks (required msg) env info s
      → Refuses s (execute h querier env info msg s)
  unfolding execute execute_delegate execute_redelegate execute_undelegate
      execute_initiate_withdraw_unlocked execute_initiate_withdraw_reward execute_update_op
      execute_propose_update_admin execute_propose_update_unlocked_distribution_address
      execute_propose_update_staking_reward_distribution_address execute_propose_emergency_withdraw
      execute_propose_gov_vote execute_vote execute_process_proposal execute_internal_update_admin
      execute_internal_update_unlocked_distribution_address
      execute_internal_update_staking_reward_distribution_address execute_internal_withdraw_locked
      authorize_op authorize_admin authorize_self_call
  execute-Refuses h querier (ExecuteMsg.delegate validator amount) lacks = ground arith
  execute-Refuses h querier (ExecuteMsg.redelegate src dst amount) lacks = ground arith
  execute-Refuses h querier (ExecuteMsg.undelegate validator amount) lacks = ground arith
  execute-Refuses h querier (ExecuteMsg.initiate_withdraw_unlocked amount) lacks = ground arith
  execute-Refuses h querier ExecuteMsg.initiate_withdraw_reward lacks = ground arith
  execute-Refuses h querier (ExecuteMsg.update_op op r) lacks = ground arith
  execute-Refuses h querier (ExecuteMsg.propose_update_admin admin r) lacks =
      lifted-Refuses h lacks _ _ _
  execute-Refuses h querier (ExecuteMsg.propose_update_unlocked_distribution_address a) lacks =
      lifted-Refuses h lacks _ _ _
  execute-Refuses h querier (ExecuteMsg.propose_update_staking_reward_distribution_address a)
        lacks =
      lifted-Refuses h lacks _ _ _
  execute-Refuses h querier (ExecuteMsg.propose_emergency_withdraw dst) lacks =
      lifted-Refuses h lacks _ _ _
  execute-Refuses h querier (ExecuteMsg.propose_gov_vote id v) lacks = propose-Refuses h lacks _ _
  execute-Refuses h querier (ExecuteMsg.vote_proposal id) lacks = ground arith
  execute-Refuses h querier (ExecuteMsg.process_proposal id) lacks = ground arith
  execute-Refuses h querier (ExecuteMsg.internal_update_admin admin r) lacks =
      ground (arith, str_eq_iff env.address info.sender)
  execute-Refuses h querier (ExecuteMsg.internal_update_unlocked_distribution_address a) lacks =
      ground (arith, str_eq_iff env.address info.sender)
  execute-Refuses h querier (ExecuteMsg.internal_update_staking_reward_distribution_address a)
        lacks =
      ground (arith, str_eq_iff env.address info.sender)
  execute-Refuses h querier (ExecuteMsg.internal_withdraw_locked dst) lacks =
      ground (arith, str_eq_iff env.address info.sender)
