-- ===== src/Roles/Frame.antt =====
-- The handlers that leave the members and the configuration alone.
use gringotts.Base.{ℕ, ◌≡◌, refl, Option, String, arith, List}
use gringotts.Cosmos.{Addr, Timestamp, Duration, Threshold, Env, MessageInfo, CosmosMsg}
use gringotts.Host.{Host, Querier}
use gringotts.Msg.{EmptyStruct}
use gringotts.Storage.{Map}
use gringotts.State.{ContractVersion, Store}
use gringotts.Vesting.{collect_vested, save_remaining}
use gringotts.Contract.Withdraw.{
  execute_initiate_withdraw_unlocked, execute_initiate_withdraw_reward,
}
use gringotts.Contract.Propose.{execute_propose}
use gringotts.Contract.Vote.{execute_vote, execute_process_proposal}
use gringotts.Contract.Internal.{execute_internal_withdraw_locked}
use gringotts.Accounting.Rewards.{withdraw_reward-Keeps}

-- What is written at the instantiation and by no message.
pub record Fixed : Type 0 where
  pub contract_info : Option ContractVersion
  pub denom : Option String
  pub total_amount : Option ℕ
  pub max_voting_period : Option Duration
  pub admin_voting_threshold : Option Threshold

abbrev pub fixed_cells : Store → Fixed
fixed_cells s = record {
  contract_info = s.contract_info;
  denom = s.denom;
  total_amount = s.total_amount;
  max_voting_period = s.max_voting_period;
  admin_voting_threshold = s.admin_voting_threshold;
}

-- What the admins decide by vote.
pub record Decided : Type 0 where
  pub admins : Map Addr EmptyStruct
  pub unlock_distribution_address : Option Addr
  pub staking_reward_address : Option Addr

abbrev pub decided : Store → Decided
decided s = record {
  admins = s.admins;
  unlock_distribution_address = s.unlock_distribution_address;
  staking_reward_address = s.staking_reward_address;
}

-- All of that, and the operators.
pub record Roles : Type 0 where
  pub fixed : Fixed
  pub by_vote : Decided
  pub ops : Map Addr EmptyStruct

abbrev pub roles : Store → Roles
roles s = record { fixed = fixed_cells s; by_vote = decided s; ops = s.ops }

module _ (s : Store) where
  pub roles-collect : (now : Timestamp) (n : ℕ) → roles (collect_vested now n s).1 ≡ roles s
  unfolding collect_vested save_remaining
  roles-collect now n = ground arith

  module _ (env : Env) (info : MessageInfo) where
    pub roles-withdraw_unlocked :
        (n : ℕ) → roles (execute_initiate_withdraw_unlocked env info n s).1 ≡ roles s
    unfolding execute_initiate_withdraw_unlocked
    roles-withdraw_unlocked n = ground (arith, roles-collect env.block.time n)

    pub roles-withdraw_locked :
        (dst : Addr) → roles (execute_internal_withdraw_locked env info dst s).1 ≡ roles s
    unfolding execute_internal_withdraw_locked
    roles-withdraw_locked dst = ground arith

    pub roles-withdraw_reward :
        (querier : Querier)
        → roles (execute_initiate_withdraw_reward querier env info s).1 ≡ roles s
    roles-withdraw_reward querier =
        (withdraw_reward-Keeps {P = λ t. roles t ≡ roles s} (λ n t same. same) querier env info).at
          s refl

    module _ (h : Host) where
      pub roles-propose :
          (title : String) (msgs : List CosmosMsg)
          → roles (execute_propose h env info title msgs s).1 ≡ roles s
      unfolding execute_propose
      roles-propose title msgs = ground arith

      pub roles-vote : (id : ℕ) → roles (execute_vote h env info id s).1 ≡ roles s
      unfolding execute_vote
      roles-vote id = ground arith

      pub roles-process_proposal :
          (id : ℕ) → roles (execute_process_proposal h env info id s).1 ≡ roles s
      unfolding execute_process_proposal
      roles-process_proposal id = ground arith
