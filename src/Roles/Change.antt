-- ===== src/Roles/Change.antt =====
-- What a message may change beside the money and the proposals, and who may send it.
use gringotts.Base.{
  true, false, Bool, String, ◌≡◌, ◌≢◌, ◌⊎◌, refl, ap, none, some, if◌then◌else◌, Option-cases,
  str_eq, str_eq_iff, arith, List, inl, inr,
}
use gringotts.Error.{Result, ok, err, panic}
use gringotts.Exec.{lift, ◌>>=◌}
use gringotts.Cosmos.{Addr, Env, MessageInfo, CosmosMsg}
use gringotts.Host.{Host, Querier}
use gringotts.Msg.{ExecuteMsg, EmptyStruct, empty_struct}
use gringotts.Permission.{authorize_admin, authorize_self_call}
use gringotts.Storage.{Map, may_load, insert, remove}
use gringotts.Storage.Keys.{string_key}
use gringotts.State.{Store}
use gringotts.Contract.Propose.{
  execute_update_op, execute_propose, execute_propose_update_admin,
  execute_propose_update_unlocked_distribution_address,
  execute_propose_update_staking_reward_distribution_address, execute_propose_emergency_withdraw,
  execute_propose_gov_vote,
}
use gringotts.Contract.Internal.{
  execute_internal_update_admin, execute_internal_update_unlocked_distribution_address,
  execute_internal_update_staking_reward_distribution_address,
}
use gringotts.Contract.Execute.{execute}
use gringotts.Roles.Frame.{
  Roles, roles, fixed_cells, decided, roles-withdraw_unlocked, roles-withdraw_locked,
  roles-withdraw_reward, roles-propose, roles-vote, roles-process_proposal,
}

-- A member is removed or added.
abbrev pub toggled : Bool → Addr → Map Addr EmptyStruct → Map Addr EmptyStruct
toggled leaves a m = if leaves then remove a m else insert a empty_struct m

-- The changes of the members and the configuration that a message of a sender can make.
pub data Change (env : Env) (info : MessageInfo) (s : Store) (r : Roles) : Type 0 where
  idle : r ≡ roles s → Change env info s r
  operator :
      (leaves : Bool) (op : Addr)
      → may_load info.sender s.admins ≢ none
      → r ≡ record (roles s) { ops = toggled leaves op s.ops }
      → Change env info s r
  admin :
      (leaves : Bool) (a : Addr)
      → info.sender ≡ env.address
      → r ≡ record (roles s) { by_vote = record (decided s) { admins = toggled leaves a s.admins } }
      → Change env info s r
  unlock_address :
      (a : Addr)
      → info.sender ≡ env.address
      → r
        ≡ record (roles s) { by_vote = record (decided s) { unlock_distribution_address = some a } }
      → Change env info s r
  reward_address :
      (a : Addr)
      → info.sender ≡ env.address
      → r ≡ record (roles s) { by_vote = record (decided s) { staking_reward_address = some a } }
      → Change env info s r

module _ (env : Env) (info : MessageInfo) (s : Store) where
  update_op-Change :
      (op : Addr) (leaves : Bool) → Change env info s (roles (execute_update_op info op leaves s).1)
  unfolding execute_update_op authorize_admin
  update_op-Change op leaves = elim (Option-cases (may_load info.sender s.admins)) [
    | inl outsider ↦ idle (ground arith)
    | inr (x, is_admin) ↦ operator leaves op (ground arith) (ground arith)
  ]

  -- The contract is the sender, or the check of a self call fails.
  self-cases :
      ((str_eq env.address info.sender ≡ true) × (info.sender ≡ env.address))
      ⊎ (str_eq env.address info.sender ≡ false)
  self-cases = ground (arith, str_eq_iff env.address info.sender)

  module _ (a : Addr) where
    update_admin-Change :
        (leaves : Bool)
        → Change env info s (roles (execute_internal_update_admin env info a leaves s).1)
    unfolding execute_internal_update_admin authorize_self_call
    update_admin-Change leaves = elim self-cases [
      | inl (same, self) ↦ admin leaves a self (ground arith)
      | inr other ↦ idle (ground arith)
    ]

    unlock_address-Change :
        Change env info s
          (roles (execute_internal_update_unlocked_distribution_address env info a s).1)
    unfolding execute_internal_update_unlocked_distribution_address authorize_self_call
    unlock_address-Change = elim self-cases [
      | inl (same, self) ↦ unlock_address a self (ground arith)
      | inr other ↦ idle (ground arith)
    ]

    reward_address-Change :
        Change env info s
          (roles (execute_internal_update_staking_reward_distribution_address env info a s).1)
    unfolding execute_internal_update_staking_reward_distribution_address authorize_self_call
    reward_address-Change = elim self-cases [
      | inl (same, self) ↦ reward_address a self (ground arith)
      | inr other ↦ idle (ground arith)
    ]

  module _ (h : Host) where
    propose-Change :
        (title : String) (msgs : List CosmosMsg)
        → Change env info s (roles (execute_propose h env info title msgs s).1)
    propose-Change title msgs = idle (roles-propose s env info h title msgs)

    lifted-Change :
        {A : Type 0} (a : Result A) (title : String) (msgs : A → List CosmosMsg)
        → Change env info s
            (roles ((lift a >>= λ b. execute_propose h env info title (msgs b)) s).1)
    lifted-Change (ok b) title msgs = propose-Change title (msgs b)
    lifted-Change (err _) title msgs = idle refl
    lifted-Change panic title msgs = idle refl

    -- Every message is one of these changes.
    pub execute-Change :
        (querier : Querier) (msg : ExecuteMsg)
        → Change env info s (roles (execute h querier env info msg s).1)
    unfolding execute execute_propose_update_admin
        execute_propose_update_unlocked_distribution_address
        execute_propose_update_staking_reward_distribution_address
        execute_propose_emergency_withdraw execute_propose_gov_vote
    execute-Change querier (ExecuteMsg.delegate validator amount) = idle refl
    execute-Change querier (ExecuteMsg.redelegate src dst amount) = idle refl
    execute-Change querier (ExecuteMsg.undelegate validator amount) = idle refl
    execute-Change querier (ExecuteMsg.initiate_withdraw_unlocked n) =
        idle (roles-withdraw_unlocked s env info n)
    execute-Change querier ExecuteMsg.initiate_withdraw_reward =
        idle (roles-withdraw_reward s env info querier)
    execute-Change querier (ExecuteMsg.update_op op leaves) = update_op-Change op leaves
    execute-Change querier (ExecuteMsg.propose_update_admin a leaves) = lifted-Change _ _ _
    execute-Change querier (ExecuteMsg.propose_update_unlocked_distribution_address a) =
        lifted-Change _ _ _
    execute-Change querier (ExecuteMsg.propose_update_staking_reward_distribution_address a) =
        lifted-Change _ _ _
    execute-Change querier (ExecuteMsg.propose_emergency_withdraw dst) = lifted-Change _ _ _
    execute-Change querier (ExecuteMsg.propose_gov_vote id v) = propose-Change _ _
    execute-Change querier (ExecuteMsg.vote_proposal id) = idle (roles-vote s env info h id)
    execute-Change querier (ExecuteMsg.process_proposal id) =
        idle (roles-process_proposal s env info h id)
    execute-Change querier (ExecuteMsg.internal_update_admin a leaves) =
        update_admin-Change a leaves
    execute-Change querier (ExecuteMsg.internal_update_unlocked_distribution_address a) =
        unlock_address-Change a
    execute-Change querier (ExecuteMsg.internal_update_staking_reward_distribution_address a) =
        reward_address-Change a
    execute-Change querier (ExecuteMsg.internal_withdraw_locked dst) =
        idle (roles-withdraw_locked s env info dst)

-- No message changes the denomination, the total, the voting period, the threshold or the version that
-- are stored; only a message of the contract itself changes the admins and the addresses that are paid;
-- and only a message of an admin changes the operators.
pub execute-permitted :
    (env : Env) (info : MessageInfo) (s : Store) (h : Host) (querier : Querier) (msg : ExecuteMsg)
    → let s' = (execute h querier env info msg s).1 in
      (fixed_cells s' ≡ fixed_cells s)
      × ((decided s' ≡ decided s) ⊎ (info.sender ≡ env.address))
      × ((s'.ops ≡ s.ops) ⊎ (may_load info.sender s.admins ≢ none))
execute-permitted env info s h querier msg = elim (execute-Change env info s h querier msg) [
  | idle e ↦ (ap (λ x. x.fixed) e, inl (ap (λ x. x.by_vote) e), inl (ap (λ x. x.ops) e))
  | operator leaves op is_admin e ↦ (ap (λ x. x.fixed) e, inl (ap (λ x. x.by_vote) e), inr is_admin)
  | admin leaves a self e ↦ (ap (λ x. x.fixed) e, inr self, inl (ap (λ x. x.ops) e))
  | unlock_address a self e ↦ (ap (λ x. x.fixed) e, inr self, inl (ap (λ x. x.ops) e))
  | reward_address a self e ↦ (ap (λ x. x.fixed) e, inr self, inl (ap (λ x. x.ops) e))
]
