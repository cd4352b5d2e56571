-- ===== src/Accounting/Frame.antt =====
-- The handlers that leave the cells of the money alone.
use gringotts.Base.{ℕ, String, ◌≡◌, List, Option, arith, Bool}
use gringotts.Cosmos.{Addr, Timestamp, Env, MessageInfo, CosmosMsg}
use gringotts.Host.{Host}
use gringotts.State.{Store}
use gringotts.Contract.Propose.{execute_update_op, execute_propose}
use gringotts.Contract.Internal.{execute_internal_update_admin}
use gringotts.Contract.Vote.{execute_vote, execute_process_proposal}

-- The cells that the accounts are about.
pub record Money : Type 0 where
  pub denom : Option String
  pub vesting_timestamps : Option (List Timestamp)
  pub vesting_amounts : Option (List ℕ)
  pub total_amount : Option ℕ
  pub unlock_distribution_address : Option Addr
  pub staking_reward_address : Option Addr
  pub withdrawn_staking_rewards : Option ℕ
  pub withdrawn_unlocked : Option ℕ
  pub withdrawn_locked : Option ℕ

abbrev pub money : Store → Money
money s = record {
  denom = s.denom;
  vesting_timestamps = s.vesting_timestamps;
  vesting_amounts = s.vesting_amounts;
  total_amount = s.total_amount;
  unlock_distribution_address = s.unlock_distribution_address;
  staking_reward_address = s.staking_reward_address;
  withdrawn_staking_rewards = s.withdrawn_staking_rewards;
  withdrawn_unlocked = s.withdrawn_unlocked;
  withdrawn_locked = s.withdrawn_locked;
}

pub money-update_op :
    (info : MessageInfo) (op : Addr) (r : Bool) (s : Store)
    → money (execute_update_op info op r s).1 ≡ money s
unfolding execute_update_op
money-update_op info op r s = ground arith

module _ (h : Host) where
  pub money-propose :
      (env : Env) (info : MessageInfo) (title : String) (msgs : List CosmosMsg) (s : Store)
      → money (execute_propose h env info title msgs s).1 ≡ money s
  unfolding execute_propose
  money-propose env info title msgs s = ground arith

  pub money-vote :
      (env : Env) (info : MessageInfo) (id : ℕ) (s : Store)
      → money (execute_vote h env info id s).1 ≡ money s
  unfolding execute_vote
  money-vote env info id s = ground arith

  pub money-process_proposal :
      (env : Env) (info : MessageInfo) (id : ℕ) (s : Store)
      → money (execute_process_proposal h env info id s).1 ≡ money s
  unfolding execute_process_proposal
  money-process_proposal env info id s = ground arith

pub money-internal_update_admin :
    (env : Env) (info : MessageInfo) (admin : Addr) (r : Bool) (s : Store)
    → money (execute_internal_update_admin env info admin r s).1 ≡ money s
unfolding execute_internal_update_admin
money-internal_update_admin env info admin r s = ground arith
