-- ===== src/Outflow/Addresses.antt =====
-- The addresses that the contract pays: which messages write them.
use gringotts.Base.{◌≡◌, ◌≢◌, ◌⊎◌, ap, Bool, some, String, List, str_eq_iff, arith}
use gringotts.Error.{Result, ok, err, panic}
use gringotts.Exec.{lift, ◌>>=◌}
use gringotts.Cosmos.{Addr, Env, MessageInfo, CosmosMsg}
use gringotts.Host.{Host, Querier}
use gringotts.Msg.{ExecuteMsg}
use gringotts.State.{Store}
use gringotts.Permission.{authorize_self_call}
use gringotts.Contract.Propose.{
  execute_update_op, execute_propose, execute_propose_update_admin,
  execute_propose_update_unlocked_distribution_address,
  execute_propose_update_staking_reward_distribution_address, execute_propose_emergency_withdraw,
  execute_propose_gov_vote,
}
use gringotts.Contract.Internal.{
  execute_internal_update_admin, execute_internal_update_unlocked_distribution_address,
  execute_internal_update_staking_reward_distribution_address,
}
use gringotts.Contract.Execute.{execute}
use gringotts.Roles.Frame.{
  Roles, roles, roles-withdraw_unlocked, roles-withdraw_locked, roles-withdraw_reward,
  roles-propose, roles-vote, roles-process_proposal,
}
use gringotts.Outflow.Receivers.{IsStranger}
use gringotts.Outflow.Strangers.{Spares}

module _ (a : Addr) (h : Host) (env : Env) (info : MessageInfo) (s : Store)
    (stranger : IsStranger a s) where
  same_addresses :
      {x : Roles}
      → x ≡ roles s
      → (x.by_vote.unlock_distribution_address ≢ some a)
        × (x.by_vote.staking_reward_address ≢ some a)
  same_addresses same =
      let unlock = ap (λ y. y.by_vote.unlock_distribution_address) same in
      let reward = ap (λ y. y.by_vote.staking_reward_address) same in
      (ground (arith, unlock), ground (arith, reward))

  propose-IsStranger :
      (title : String) (msgs : List CosmosMsg)
      → IsStranger a (execute_propose h env info title msgs s).1
  propose-IsStranger title msgs = same_addresses (roles-propose s env info h title msgs)

  lifted-IsStranger :
      {A : Type 0} (b : Result A) (title : String) (msgs : A → List CosmosMsg)
      → IsStranger a ((lift b >>= λ c. execute_propose h env info title (msgs c)) s).1
  lifted-IsStranger (ok c) title msgs = propose-IsStranger title (msgs c)
  lifted-IsStranger (err _) title msgs = stranger
  lifted-IsStranger panic title msgs = stranger

  update_op-IsStranger :
      (op : Addr) (leaves : Bool) → IsStranger a (execute_update_op info op leaves s).1
  unfolding execute_update_op
  update_op-IsStranger op leaves = ground arith

  update_admin-IsStranger :
      (b : Addr) (leaves : Bool)
      → IsStranger a (execute_internal_update_admin env info b leaves s).1
  unfolding execute_internal_update_admin
  update_admin-IsStranger b leaves = ground arith

  unlock_address-IsStranger :
      (b : Addr)
      → (info.sender ≢ env.address) ⊎ (b ≢ a)
      → IsStranger a (execute_internal_update_unlocked_distribution_address env info b s).1
  unfolding execute_internal_update_unlocked_distribution_address authorize_self_call
  unlock_address-IsStranger b spares = ground (arith, str_eq_iff env.address info.sender)

  reward_address-IsStranger :
      (b : Addr)
      → (info.sender ≢ env.address) ⊎ (b ≢ a)
      → IsStranger a (execute_internal_update_staking_reward_distribution_address env info b s).1
  unfolding execute_internal_update_staking_reward_distribution_address authorize_self_call
  reward_address-IsStranger b spares = ground (arith, str_eq_iff env.address info.sender)

  -- A stranger whom a message does not name is a stranger after it.
  pub execute-IsStranger :
      (querier : Querier) (msg : ExecuteMsg)
      → Spares a env info msg
      → IsStranger a (execute h querier env info msg s).1
  unfolding execute execute_propose_update_admin
      execute_propose_update_unlocked_distribution_address
      execute_propose_update_staking_reward_distribution_address execute_propose_emergency_withdraw
      execute_propose_gov_vote
  execute-IsStranger querier (ExecuteMsg.delegate validator amount) spares = stranger
  execute-IsStranger querier (ExecuteMsg.redelegate src dst amount) spares = stranger
  execute-IsStranger querier (ExecuteMsg.undelegate validator amount) spares = stranger
  execute-IsStranger querier (ExecuteMsg.initiate_withdraw_unlocked n) spares =
      same_addresses (roles-withdraw_unlocked s env info n)
  execute-IsStranger querier ExecuteMsg.initiate_withdraw_reward spares =
      same_addresses (roles-withdraw_reward s env info querier)
  execute-IsStranger querier (ExecuteMsg.update_op op leaves) spares =
      update_op-IsStranger op leaves
  execute-IsStranger querier (ExecuteMsg.propose_update_admin b leaves) spares =
      lifted-IsStranger _ _ _
  execute-IsStranger querier (ExecuteMsg.propose_update_unlocked_distribution_address b) spares =
      lifted-IsStranger _ _ _
  execute-IsStranger querier (ExecuteMsg.propose_update_staking_reward_distribution_address b)
        spares =
      lifted-IsStranger _ _ _
  execute-IsStranger querier (ExecuteMsg.propose_emergency_withdraw dst) spares =
      lifted-IsStranger _ _ _
  execute-IsStranger querier (ExecuteMsg.propose_gov_vote id v) spares = propose-IsStranger _ _
  execute-IsStranger querier (ExecuteMsg.vote_proposal id) spares =
      same_addresses (roles-vote s env info h id)
  execute-IsStranger querier (ExecuteMsg.process_proposal id) spares =
      same_addresses (roles-process_proposal s env info h id)
  execute-IsStranger querier (ExecuteMsg.internal_update_admin b leaves) spares =
      update_admin-IsStranger b leaves
  execute-IsStranger querier (ExecuteMsg.internal_update_unlocked_distribution_address b) spares =
      unlock_address-IsStranger b spares
  execute-IsStranger querier (ExecuteMsg.internal_update_staking_reward_distribution_address b)
        spares =
      reward_address-IsStranger b spares
  execute-IsStranger querier (ExecuteMsg.internal_withdraw_locked dst) spares =
      same_addresses (roles-withdraw_locked s env info dst)
