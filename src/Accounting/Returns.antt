-- ===== src/Accounting/Returns.antt =====
-- Which messages can panic on balanced accounts, handler by handler.
use gringotts.Base.{ℕ, ◌≢◌, ltb, arith, Option-cases, Bool-cases, inl, inr}
use gringotts.Error.{panic}
use gringotts.Cosmos.{Addr, Env, MessageInfo}
use gringotts.Host.{Host, Querier}
use gringotts.Msg.{ExecuteMsg}
use gringotts.Storage.{may_load}
use gringotts.Storage.Keys.{string_key}
use gringotts.State.{Store}
use gringotts.Permission.{authorize_op, authorize_admin, authorize_self_call}
use gringotts.Staking.{delegate, redelegate, undelegate}
use gringotts.Vesting.Schedule.{vested}
use gringotts.Vesting.Refinement.{collect_vested_short}
use gringotts.Contract.Ops.{execute_delegate, execute_redelegate, execute_undelegate}
use gringotts.Contract.Withdraw.{execute_initiate_withdraw_unlocked}
use gringotts.Contract.Propose.{execute_update_op}
use gringotts.Contract.Internal.{
  execute_internal_update_admin, execute_internal_update_unlocked_distribution_address,
  execute_internal_update_staking_reward_distribution_address, execute_internal_withdraw_locked,
}
use gringotts.Contract.Execute.{execute}
use gringotts.Accounting.Sound.{IsBalanced}
use gringotts.Accounting.Withdraw.{withdraw_unlocked_pays}
use gringotts.Accounting.Panics.{IsAnswering, reward_returns}

-- The message neither makes a proposal nor votes on one nor processes one, and so asks cw3 and cw_utils for
-- nothing.
abbrev pub IsDirect : ExecuteMsg → Type 0
IsDirect (ExecuteMsg.propose_update_admin _ _) = ⊥
IsDirect (ExecuteMsg.propose_update_unlocked_distribution_address _) = ⊥
IsDirect (ExecuteMsg.propose_update_staking_reward_distribution_address _) = ⊥
IsDirect (ExecuteMsg.propose_emergency_withdraw _) = ⊥
IsDirect (ExecuteMsg.propose_gov_vote _ _) = ⊥
IsDirect (ExecuteMsg.vote_proposal _) = ⊥
IsDirect (ExecuteMsg.process_proposal _) = ⊥
IsDirect _ = Unit

module _ (env : Env) (info : MessageInfo) (s : Store) where
  unlocked_returns :
      (v : IsBalanced s) (n : ℕ) → (execute_initiate_withdraw_unlocked env info n s).0 ≢ panic
  unfolding execute_initiate_withdraw_unlocked authorize_op
  unlocked_returns v n = elim (Option-cases (may_load info.sender s.ops)) [
    | inl outsider ↦ ground arith
    | inr (x, is_op) ↦ elim (Bool-cases (ltb (vested env.block.time v.schedule) n)) [
      | inl short ↦
          let balance = v.balance in
          let bound = v.total_u128 in
          ground (
            arith,
            collect_vested_short env.block.time n v.schedule s v.has_timestamps v.has_amounts
                (omega arith) (ground arith),
          )
      | inr enough ↦ ground (arith, withdraw_unlocked_pays env info n s v is_op (ground arith))
    ]
  ]

  locked_returns :
      (v : IsBalanced s) (dst : Addr) → (execute_internal_withdraw_locked env info dst s).0 ≢ panic
  unfolding execute_internal_withdraw_locked authorize_self_call
  locked_returns v dst = ground (arith, v.has_amounts, v.has_locked, v.has_denom)

  -- On balanced accounts, where no query panics, no message panics that neither makes a proposal nor votes on
  -- one nor processes one.
  pub execute-ne-panic :
      (h : Host) (querier : Querier)
      → IsAnswering querier
      → IsBalanced s
      → (msg : ExecuteMsg) → IsDirect msg
      → (execute h querier env info msg s).0 ≢ panic
  unfolding execute execute_delegate execute_redelegate execute_undelegate delegate redelegate
      undelegate authorize_op authorize_admin authorize_self_call execute_update_op
      execute_internal_update_admin execute_internal_update_unlocked_distribution_address
      execute_internal_update_staking_reward_distribution_address
  execute-ne-panic h querier answers v (ExecuteMsg.delegate validator amount) direct = ground arith
  execute-ne-panic h querier answers v (ExecuteMsg.redelegate src dst amount) direct = ground arith
  execute-ne-panic h querier answers v (ExecuteMsg.undelegate validator amount) direct =
      ground arith
  execute-ne-panic h querier answers v (ExecuteMsg.initiate_withdraw_unlocked n) direct =
      unlocked_returns v n
  execute-ne-panic h querier answers v ExecuteMsg.initiate_withdraw_reward direct =
      reward_returns querier answers env s v info
  execute-ne-panic h querier answers v (ExecuteMsg.update_op op remove) direct = ground arith
  execute-ne-panic h querier answers v (ExecuteMsg.propose_update_admin a remove) direct =
      absurd direct
  execute-ne-panic h querier answers v (ExecuteMsg.propose_update_unlocked_distribution_address a)
        direct =
      absurd direct
  execute-ne-panic h querier answers v
        (ExecuteMsg.propose_update_staking_reward_distribution_address a) direct =
      absurd direct
  execute-ne-panic h querier answers v (ExecuteMsg.propose_emergency_withdraw dst) direct =
      absurd direct
  execute-ne-panic h querier answers v (ExecuteMsg.propose_gov_vote id vote) direct = absurd direct
  execute-ne-panic h querier answers v (ExecuteMsg.vote_proposal id) direct = absurd direct
  execute-ne-panic h querier answers v (ExecuteMsg.process_proposal id) direct = absurd direct
  execute-ne-panic h querier answers v (ExecuteMsg.internal_update_admin a remove) direct =
      ground arith
  execute-ne-panic h querier answers v (ExecuteMsg.internal_update_unlocked_distribution_address a)
        direct =
      ground arith
  execute-ne-panic h querier answers v
        (ExecuteMsg.internal_update_staking_reward_distribution_address a) direct =
      ground arith
  execute-ne-panic h querier answers v (ExecuteMsg.internal_withdraw_locked dst) direct =
      locked_returns v dst
