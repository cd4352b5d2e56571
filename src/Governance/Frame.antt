-- ===== src/Governance/Frame.antt =====
-- The messages that leave the proposals and the ballots alone, and what any message does to them.
use gringotts.Base.{ℕ, Bool, String, ◌≡◌, refl, arith, List}
use gringotts.Error.{Result, ok, err, panic}
use gringotts.Exec.{lift, ◌>>=◌}
use gringotts.Cosmos.{Addr, Timestamp, Env, MessageInfo, Response, CosmosMsg}
use gringotts.Host.{Host, Querier}
use gringotts.Msg.{ExecuteMsg}
use gringotts.State.{Store}
use gringotts.Vesting.{collect_vested, save_remaining}
use gringotts.Contract.Withdraw.{
  execute_initiate_withdraw_unlocked, execute_initiate_withdraw_reward,
}
use gringotts.Contract.Propose.{
  execute_update_op, execute_propose, execute_propose_update_admin,
  execute_propose_update_unlocked_distribution_address,
  execute_propose_update_staking_reward_distribution_address, execute_propose_emergency_withdraw,
  execute_propose_gov_vote,
}
use gringotts.Contract.Internal.{
  execute_internal_update_admin, execute_internal_update_unlocked_distribution_address,
  execute_internal_update_staking_reward_distribution_address, execute_internal_withdraw_locked,
}
use gringotts.Contract.Execute.{execute}
use gringotts.Chain.{Call, deliver, deliver_success}
use gringotts.Accounting.Rewards.{withdraw_reward-Keeps}
use gringotts.Governance.Step.{gov, Step, idle, propose-Step, vote-Step, process-Step}

module _ (s : Store) where
  gov-collect : (now : Timestamp) (n : ℕ) → gov (collect_vested now n s).1 ≡ gov s
  unfolding collect_vested save_remaining
  gov-collect now n = ground arith

  module _ (env : Env) (info : MessageInfo) where
    pub gov-withdraw_unlocked :
        (n : ℕ) → gov (execute_initiate_withdraw_unlocked env info n s).1 ≡ gov s
    unfolding execute_initiate_withdraw_unlocked
    gov-withdraw_unlocked n = ground (arith, gov-collect env.block.time n)

    pub gov-withdraw_locked :
        (dst : Addr) → gov (execute_internal_withdraw_locked env info dst s).1 ≡ gov s
    unfolding execute_internal_withdraw_locked
    gov-withdraw_locked dst = ground arith

    pub gov-update_op : (op : Addr) (r : Bool) → gov (execute_update_op info op r s).1 ≡ gov s
    unfolding execute_update_op
    gov-update_op op r = ground arith

    pub gov-update_admin :
        (a : Addr) (r : Bool) → gov (execute_internal_update_admin env info a r s).1 ≡ gov s
    unfolding execute_internal_update_admin
    gov-update_admin a r = ground arith

    pub gov-unlock_address :
        (a : Addr)
        → gov (execute_internal_update_unlocked_distribution_address env info a s).1 ≡ gov s
    unfolding execute_internal_update_unlocked_distribution_address
    gov-unlock_address a = ground arith

    pub gov-reward_address :
        (a : Addr)
        → gov (execute_internal_update_staking_reward_distribution_address env info a s).1 ≡ gov s
    unfolding execute_internal_update_staking_reward_distribution_address
    gov-reward_address a = ground arith

    pub gov-withdraw_reward :
        (querier : Querier) → gov (execute_initiate_withdraw_reward querier env info s).1 ≡ gov s
    gov-withdraw_reward querier =
        (withdraw_reward-Keeps {P = λ t. gov t ≡ gov s} (λ n t same. same) querier env info).at s
          refl

module _ (h : Host) (querier : Querier) (env : Env) (info : MessageInfo) (s : Store)
    {r : Response} where
  lifted-Step :
      {A : Type 0} (a : Result A) (title : String) (msgs : A → List CosmosMsg)
      → ((lift a >>= λ b. execute_propose h env info title (msgs b)) s).0 ≡ ok r
      → Step h (gov s) (gov ((lift a >>= λ b. execute_propose h env info title (msgs b)) s).1)
  lifted-Step (ok b) title msgs e = propose-Step h env info s r title (msgs b) e
  lifted-Step (err _) title msgs e = idle refl
  lifted-Step panic title msgs e = idle refl

  -- A message that succeeds is a step.
  execute-Step :
      (msg : ExecuteMsg)
      → (execute h querier env info msg s).0 ≡ ok r
      → Step h (gov s) (gov (execute h querier env info msg s).1)
  unfolding execute execute_propose_update_admin
      execute_propose_update_unlocked_distribution_address
      execute_propose_update_staking_reward_distribution_address execute_propose_emergency_withdraw
      execute_propose_gov_vote
  execute-Step (ExecuteMsg.delegate validator amount) e = idle refl
  execute-Step (ExecuteMsg.redelegate src dst amount) e = idle refl
  execute-Step (ExecuteMsg.undelegate validator amount) e = idle refl
  execute-Step (ExecuteMsg.initiate_withdraw_unlocked amount) e =
      idle (gov-withdraw_unlocked s env info amount)
  execute-Step ExecuteMsg.initiate_withdraw_reward e = idle (gov-withdraw_reward s env info querier)
  execute-Step (ExecuteMsg.update_op op remove) e = idle (gov-update_op s env info op remove)
  execute-Step (ExecuteMsg.propose_update_admin a remove) e = lifted-Step _ _ _ e
  execute-Step (ExecuteMsg.propose_update_unlocked_distribution_address a) e = lifted-Step _ _ _ e
  execute-Step (ExecuteMsg.propose_update_staking_reward_distribution_address a) e =
      lifted-Step _ _ _ e
  execute-Step (ExecuteMsg.propose_emergency_withdraw dst) e = lifted-Step _ _ _ e
  execute-Step (ExecuteMsg.propose_gov_vote id v) e = propose-Step h env info s r _ _ e
  execute-Step (ExecuteMsg.vote_proposal id) e = vote-Step h env info s r id e
  execute-Step (ExecuteMsg.process_proposal id) e = process-Step h env info s r id e
  execute-Step (ExecuteMsg.internal_update_admin a remove) e =
      idle (gov-update_admin s env info a remove)
  execute-Step (ExecuteMsg.internal_update_unlocked_distribution_address a) e =
      idle (gov-unlock_address s env info a)
  execute-Step (ExecuteMsg.internal_update_staking_reward_distribution_address a) e =
      idle (gov-reward_address s env info a)
  execute-Step (ExecuteMsg.internal_withdraw_locked dst) e =
      idle (gov-withdraw_locked s env info dst)

module _ (h : Host) where
  -- Whatever message is delivered, the proposals and ballots make one step.
  pub deliver-Step : (c : Call) (s : Store) → Step h (gov s) (gov (deliver h c s))
  deliver-Step c s =
      deliver_success h (λ t. Step h (gov s) (gov t)) c s (idle refl)
        (λ r e. execute-Step h c.querier c.env c.info s c.msg e)
