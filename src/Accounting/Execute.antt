-- ===== src/Accounting/Execute.antt =====
-- Every message keeps the accounts balanced.
use mathlib.Core.Path.{subst}
use gringotts.Base.{ℕ, some, ⊤, ◌≡◌, sym, List, String}
use gringotts.Exec.{Exec, reads}
use gringotts.Permission.{authorize_self_call}
use gringotts.Exec.Keeps.{Keeps, Keeps-bind, Keeps-reads, Keeps-lift}
use gringotts.Cosmos.{Addr, Env, MessageInfo, CosmosMsg}
use gringotts.Host.{Host, Querier}
use gringotts.Msg.{ExecuteMsg}
use gringotts.State.{Store}
use gringotts.Contract.Propose.{
  execute_propose, execute_propose_update_admin,
  execute_propose_update_unlocked_distribution_address,
  execute_propose_update_staking_reward_distribution_address, execute_propose_emergency_withdraw,
  execute_propose_gov_vote,
}
use gringotts.Contract.Internal.{
  execute_internal_update_unlocked_distribution_address,
  execute_internal_update_staking_reward_distribution_address, execute_internal_withdraw_locked,
}
use gringotts.Contract.Withdraw.{execute_initiate_withdraw_unlocked}
use gringotts.Contract.Execute.{execute}
use gringotts.Accounting.Frame.{
  money, money-update_op, money-propose, money-vote, money-process_proposal,
  money-internal_update_admin,
}
use gringotts.Accounting.Sound.{
  Balanced, IsBalanced, with_rewards, with_unlock_address, with_reward_address,
}
use gringotts.Accounting.Withdraw.{withdraw_unlocked-IsBalanced, withdraw_locked-IsBalanced}
use gringotts.Accounting.Rewards.{withdraw_reward-Keeps}

-- A predicate on the cells of the money that the withdrawals and the writes of single cells keep is kept
-- by every message.
module _ {P : Store → Type 0} (env : Env) (info : MessageInfo)
    (frame : (s t : Store) → money t ≡ money s → P s → P t)
    (unlocked : (amount : ℕ) → Keeps P (execute_initiate_withdraw_unlocked env info amount))
    (locked : (dst : Addr) → Keeps P (execute_internal_withdraw_locked env info dst))
    (counted : (n : ℕ) (s : Store) → P s → P (record s { withdrawn_staking_rewards = some n }))
    (redirected : (a : Addr) (s : Store)
      → P s
      → P (record s { unlock_distribution_address = some a }))
    (rewarded : (a : Addr) (s : Store)
      → P s
      → P (record s { staking_reward_address = some a })) where
  of_money : {A : Type 0} (m : Exec Store A) → ((s : Store) → money (m s).1 ≡ money s) → Keeps P m
  of_money m same = record { at = λ s v. frame s (m s).1 (same s) v }

  save_unlock_address :
      (a : Addr) → Keeps P (execute_internal_update_unlocked_distribution_address env info a)
  unfolding execute_internal_update_unlocked_distribution_address
  save_unlock_address a =
      Keeps-bind {A = ⊤} (reads (λ s. authorize_self_call env info)) _ (Keeps-reads _)
        λ _. record { at = redirected a }

  save_reward_address :
      (a : Addr) → Keeps P (execute_internal_update_staking_reward_distribution_address env info a)
  unfolding execute_internal_update_staking_reward_distribution_address
  save_reward_address a =
      Keeps-bind {A = ⊤} (reads (λ s. authorize_self_call env info)) _ (Keeps-reads _)
        λ _. record { at = rewarded a }

  propose-Keeps :
      (h : Host) (title : String) (msgs : List CosmosMsg)
      → Keeps P (execute_propose h env info title msgs)
  propose-Keeps h title msgs = of_money _ (money-propose h env info title msgs)

  pub execute-Keeps :
      (h : Host) (querier : Querier) (msg : ExecuteMsg) → Keeps P (execute h querier env info msg)
  unfolding execute execute_propose_update_admin
      execute_propose_update_unlocked_distribution_address
      execute_propose_update_staking_reward_distribution_address execute_propose_emergency_withdraw
      execute_propose_gov_vote
  execute-Keeps h querier (ExecuteMsg.delegate validator amount) = Keeps-reads _
  execute-Keeps h querier (ExecuteMsg.redelegate src dst amount) = Keeps-reads _
  execute-Keeps h querier (ExecuteMsg.undelegate validator amount) = Keeps-reads _
  execute-Keeps h querier (ExecuteMsg.initiate_withdraw_unlocked amount) = unlocked amount
  execute-Keeps h querier ExecuteMsg.initiate_withdraw_reward =
      withdraw_reward-Keeps counted querier env info
  execute-Keeps h querier (ExecuteMsg.update_op op r) = of_money _ (money-update_op info op r)
  execute-Keeps h querier (ExecuteMsg.propose_update_admin admin r) =
      Keeps-bind _ _ (Keeps-lift _) λ _. propose-Keeps h _ _
  execute-Keeps h querier (ExecuteMsg.propose_update_unlocked_distribution_address a) =
      Keeps-bind _ _ (Keeps-lift _) λ _. propose-Keeps h _ _
  execute-Keeps h querier (ExecuteMsg.propose_update_staking_reward_distribution_address a) =
      Keeps-bind _ _ (Keeps-lift _) λ _. propose-Keeps h _ _
  execute-Keeps h querier (ExecuteMsg.propose_emergency_withdraw dst) =
      Keeps-bind _ _ (Keeps-lift _) λ _. propose-Keeps h _ _
  execute-Keeps h querier (ExecuteMsg.propose_gov_vote id v) = propose-Keeps h _ _
  execute-Keeps h querier (ExecuteMsg.vote_proposal id) = of_money _ (money-vote h env info id)
  execute-Keeps h querier (ExecuteMsg.process_proposal id) =
      of_money _ (money-process_proposal h env info id)
  execute-Keeps h querier (ExecuteMsg.internal_update_admin admin r) =
      of_money _ (money-internal_update_admin env info admin r)
  execute-Keeps h querier (ExecuteMsg.internal_update_unlocked_distribution_address a) =
      save_unlock_address a
  execute-Keeps h querier (ExecuteMsg.internal_update_staking_reward_distribution_address a) =
      save_reward_address a
  execute-Keeps h querier (ExecuteMsg.internal_withdraw_locked dst) = locked dst

-- Whatever message anyone sends, and whether it succeeds or fails, balanced accounts stay balanced.
pub execute-IsBalanced :
    (h : Host) (querier : Querier) (env : Env) (info : MessageInfo) (msg : ExecuteMsg) (s : Store)
    → IsBalanced s
    → IsBalanced (execute h querier env info msg s).1
execute-IsBalanced h querier env info msg =
    (execute-Keeps {P = λ t. IsBalanced t} env info (λ s t same v. subst Balanced (sym same) v)
      (λ amount. record { at = withdraw_unlocked-IsBalanced env info amount })
      (λ dst. record { at = withdraw_locked-IsBalanced env info dst }) (λ n s v. with_rewards s v n)
      (λ a s v. with_unlock_address s v a) (λ a s v. with_reward_address s v a) h querier msg).at
