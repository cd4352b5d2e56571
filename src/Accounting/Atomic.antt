-- ===== src/Accounting/Atomic.antt =====
-- A message that fails has written nothing, so that nothing depends on the revert of the chain.
use mathlib.Core.Path.{subst}
use gringotts.Staking.{get_all_delegated_validators}
use gringotts.Contract.Rewards.{calculate_withdrawn_rewards}
use gringotts.Base.{
  sym, ⊤, ℕ, ◌≡◌, ◌⊎◌, refl, arith, String, List, Option-cases, Bool-cases, inl, inr, Bool, str_eq,
  ltb, str_eq_iff,
}
use gringotts.Error.{Result, ok, err, panic, IsOk}
use gringotts.Exec.{Exec, lift, reads, ◌>>=◌}
use gringotts.Cosmos.{Binary, new_response, Env, MessageInfo, Response, CosmosMsg, Addr}
use gringotts.Host.{Host, Querier}
use gringotts.State.{Store}
use gringotts.Msg.{ExecuteMsg}
use gringotts.Storage.{may_load}
use gringotts.Storage.Keys.{string_key}
use gringotts.Vesting.Schedule.{vested}
use gringotts.Accounting.Sound.{IsBalanced}
use gringotts.Accounting.Rewards.{send_withdrawn_rewards_reads, withdraw_from_each_reads}
use gringotts.Accounting.Withdraw.{
  withdraw_unlocked_pays, withdraw_unlocked_refused, withdraw_locked_pays, withdraw_locked_refused,
}
use gringotts.Contract.Withdraw.{
  execute_initiate_withdraw_unlocked, execute_initiate_withdraw_reward, send_withdrawn_rewards,
  withdraw_from_each,
}
use gringotts.Permission.{authorize_op, authorize_admin, authorize_self_call}
use gringotts.Contract.Propose.{
  execute_update_op, execute_propose, execute_propose_update_admin,
  execute_propose_update_unlocked_distribution_address,
  execute_propose_update_staking_reward_distribution_address, execute_propose_emergency_withdraw,
  execute_propose_gov_vote,
}
use gringotts.Contract.Execute.{execute}
use gringotts.Contract.Vote.{execute_vote, execute_process_proposal}
use gringotts.Contract.Internal.{
  execute_internal_update_admin, execute_internal_update_unlocked_distribution_address,
  execute_internal_update_staking_reward_distribution_address, execute_internal_withdraw_locked,
}

-- The call succeeds, or it leaves the store as it was.
abbrev pub Atomic : {A : Type 0} → Store → Result A × Store → Type 0
Atomic s (r, s') = IsOk r ⊎ (s' ≡ s)

-- A call that reads, and then one that is atomic.
module _ {A B : Type 0} (s : Store) (next : A → Exec Store B) where
  resumed-Atomic :
      (outcome : Result A) (t : Store)
      → t ≡ s
      → ((a : A) → Atomic s (next a s))
      → Atomic s ((lift outcome >>= next) t)
  resumed-Atomic (ok a) t same rest = subst (λ x. Atomic s (next a x)) (sym same) (rest a)
  resumed-Atomic (err e) t same rest = inr same
  resumed-Atomic panic t same rest = inr same

bind-Atomic :
    {A B : Type 0} (s : Store) (m : Exec Store A) (next : A → Exec Store B)
    → (m s).1 ≡ s
    → ((a : A) → Atomic s (next a s))
    → Atomic s ((m >>= next) s)
bind-Atomic s m next same rest = resumed-Atomic s next (m s).0 (m s).1 same rest

module _ (h : Host) (env : Env) (info : MessageInfo) (s : Store) where
  propose-Atomic :
      (title : String) (msgs : List CosmosMsg) → Atomic s (execute_propose h env info title msgs s)
  unfolding execute_propose authorize_admin
  propose-Atomic title msgs = ground arith

  lifted-Atomic :
      (r : Result Binary) (title : String) (msgs : Binary → List CosmosMsg)
      → Atomic s ((lift r >>= λ b. execute_propose h env info title (msgs b)) s)
  lifted-Atomic (ok b) title msgs = propose-Atomic title (msgs b)
  lifted-Atomic (err e) title msgs = inr refl
  lifted-Atomic panic title msgs = inr refl

  vote-Atomic : (id : ℕ) → Atomic s (execute_vote h env info id s)
  unfolding execute_vote authorize_admin
  vote-Atomic id = ground arith

  process-Atomic : (id : ℕ) → Atomic s (execute_process_proposal h env info id s)
  unfolding execute_process_proposal authorize_admin
  process-Atomic id = ground arith

module _ (env : Env) (info : MessageInfo) (s : Store) where
  update_op-Atomic : (op : Addr) (r : Bool) → Atomic s (execute_update_op info op r s)
  unfolding execute_update_op authorize_admin
  update_op-Atomic op r = ground arith

  update_admin-Atomic :
      (a : Addr) (r : Bool) → Atomic s (execute_internal_update_admin env info a r s)
  unfolding execute_internal_update_admin authorize_self_call
  update_admin-Atomic a r = ground arith

  unlock_address-Atomic :
      (a : Addr) → Atomic s (execute_internal_update_unlocked_distribution_address env info a s)
  unfolding execute_internal_update_unlocked_distribution_address authorize_self_call
  unlock_address-Atomic a = ground arith

  reward_address-Atomic :
      (a : Addr)
      → Atomic s (execute_internal_update_staking_reward_distribution_address env info a s)
  unfolding execute_internal_update_staking_reward_distribution_address authorize_self_call
  reward_address-Atomic a = ground arith

  module _ (v : IsBalanced s) where
    withdraw_unlocked-Atomic : (n : ℕ) → Atomic s (execute_initiate_withdraw_unlocked env info n s)
    withdraw_unlocked-Atomic n = elim (Option-cases (may_load info.sender s.ops)) [
      | inl outsider ↦ inr (withdraw_unlocked_refused env info n s v (inr outsider))
      | inr (x, is_op) ↦ elim (Bool-cases (ltb (vested env.block.time v.schedule) n)) [
        | inl short ↦ inr (withdraw_unlocked_refused env info n s v (inl (ground arith)))
        | inr enough ↦
            inl (ground (arith, withdraw_unlocked_pays env info n s v is_op (ground arith)))
      ]
    ]

    withdraw_locked-Atomic :
        (dst : Addr) → Atomic s (execute_internal_withdraw_locked env info dst s)
    withdraw_locked-Atomic dst = elim (Bool-cases (str_eq env.address info.sender)) [
      | inl same ↦ inl (
          ground (
            arith,
            withdraw_locked_pays env info dst s v ((str_eq_iff env.address info.sender).0 same),
          ))
      | inr other ↦ inr (
          withdraw_locked_refused env info dst s v
            (λ e. cc (other, (str_eq_iff env.address info.sender).1 e)))
    ]

    withdraw_reward-Atomic :
        (querier : Querier) → Atomic s (execute_initiate_withdraw_reward querier env info s)
    unfolding execute_initiate_withdraw_reward
    withdraw_reward-Atomic querier =
        bind-Atomic {A = ⊤} s (reads (λ t. authorize_op t info.sender)) _ refl λ _.
          bind-Atomic {A = ℕ} s (reads (λ t. calculate_withdrawn_rewards querier t env)) _ refl
            λ withdrawn.
              bind-Atomic {A = Response} s (send_withdrawn_rewards withdrawn new_response) _
                (send_withdrawn_rewards_reads withdrawn new_response s)
                λ response.
                  bind-Atomic {A = List String} s
                    (reads (λ t. get_all_delegated_validators querier env)) _ refl
                    λ validators.
                      bind-Atomic {A = Response × ℕ} s
                        (withdraw_from_each querier env validators response withdrawn) _
                        (withdraw_from_each_reads querier env s validators response withdrawn)
                        λ paid. inl (ground (arith, v.has_rewards))

-- On balanced accounts, every message succeeds or leaves the whole store as it was.
pub execute-Atomic :
    (h : Host) (querier : Querier) (env : Env) (info : MessageInfo) (msg : ExecuteMsg) (s : Store)
    → IsBalanced s
    → Atomic s (execute h querier env info msg s)
unfolding execute execute_propose_update_admin execute_propose_update_unlocked_distribution_address
    execute_propose_update_staking_reward_distribution_address execute_propose_emergency_withdraw
    execute_propose_gov_vote
execute-Atomic h querier env info (ExecuteMsg.delegate validator amount) s v = inr refl
execute-Atomic h querier env info (ExecuteMsg.redelegate src dst amount) s v = inr refl
execute-Atomic h querier env info (ExecuteMsg.undelegate validator amount) s v = inr refl
execute-Atomic h querier env info (ExecuteMsg.initiate_withdraw_unlocked amount) s v =
    withdraw_unlocked-Atomic env info s v amount
execute-Atomic h querier env info ExecuteMsg.initiate_withdraw_reward s v =
    withdraw_reward-Atomic env info s v querier
execute-Atomic h querier env info (ExecuteMsg.update_op op r) s v = update_op-Atomic env info s op r
execute-Atomic h querier env info (ExecuteMsg.propose_update_admin a r) s v =
    lifted-Atomic h env info s _ _ _
execute-Atomic h querier env info (ExecuteMsg.propose_update_unlocked_distribution_address a) s v =
    lifted-Atomic h env info s _ _ _
execute-Atomic h querier env info (ExecuteMsg.propose_update_staking_reward_distribution_address a)
      s v =
    lifted-Atomic h env info s _ _ _
execute-Atomic h querier env info (ExecuteMsg.propose_emergency_withdraw dst) s v =
    lifted-Atomic h env info s _ _ _
execute-Atomic h querier env info (ExecuteMsg.propose_gov_vote id vote) s v =
    propose-Atomic h env info s _ _
execute-Atomic h querier env info (ExecuteMsg.vote_proposal id) s v = vote-Atomic h env info s id
execute-Atomic h querier env info (ExecuteMsg.process_proposal id) s v =
    process-Atomic h env info s id
execute-Atomic h querier env info (ExecuteMsg.internal_update_admin a r) s v =
    update_admin-Atomic env info s a r
execute-Atomic h querier env info (ExecuteMsg.internal_update_unlocked_distribution_address a) s v =
    unlock_address-Atomic env info s a
execute-Atomic h querier env info (ExecuteMsg.internal_update_staking_reward_distribution_address a)
      s v =
    reward_address-Atomic env info s a
execute-Atomic h querier env info (ExecuteMsg.internal_withdraw_locked dst) s v =
    withdraw_locked-Atomic env info s v dst
