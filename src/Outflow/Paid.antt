-- ===== src/Outflow/Paid.antt =====
-- What the response of one message pays, beside the counts of what was withdrawn.
use gringotts.Base.{
  Bool, Option-cases, Bool-cases, ℕ, ◌+◌, ◌%◌, ◌≡◌, refl, ap, true, String, str_eq, str_eq_iff, ltb,
  List, [], ◌∷◌, All, arith, inl, inr, get_or,
}
use gringotts.Word.{u128_mod}
use gringotts.Error.{Result, ok, err, panic}
use gringotts.Exec.{lift, ◌>>=◌}
use gringotts.Cosmos.{
  Addr, Env, MessageInfo, Response, CosmosMsg, wasm, gov, bank, staking, distribution, WasmMsg,
}
use gringotts.Host.{Host, Querier, IsLawful}
use gringotts.Storage.{may_load}
use gringotts.Storage.Keys.{string_key}
use gringotts.Msg.{ExecuteMsg}
use gringotts.State.{Store}
use gringotts.Vesting.Schedule.{vested}
use gringotts.Permission.{authorize_op, authorize_admin, authorize_self_call}
use gringotts.Staking.{delegate, redelegate, undelegate}
use gringotts.Contract.Ops.{execute_delegate, execute_redelegate, execute_undelegate}
use gringotts.Contract.Withdraw.{
  execute_initiate_withdraw_unlocked, execute_initiate_withdraw_reward,
}
use gringotts.Contract.Propose.{
  execute_update_op, execute_propose, execute_propose_update_admin,
  execute_propose_update_unlocked_distribution_address,
  execute_propose_update_staking_reward_distribution_address, execute_propose_emergency_withdraw,
  execute_propose_gov_vote,
}
use gringotts.Contract.Vote.{execute_vote, execute_process_proposal}
use gringotts.Contract.Internal.{
  execute_internal_update_admin, execute_internal_update_unlocked_distribution_address,
  execute_internal_update_staking_reward_distribution_address, execute_internal_withdraw_locked,
}
use gringotts.Contract.Execute.{execute}
use gringotts.Accounting.Frame.{money, money-process_proposal}
use gringotts.Accounting.Sound.{IsBalanced}
use gringotts.Accounting.Withdraw.{payment, withdraw_unlocked_pays, withdraw_locked_pays}
use gringotts.Accounting.Reported.{short_fails}
use gringotts.Accounting.Payments.{paid}
use gringotts.Accounting.Sent.{withdraw_reward-sent_where}
use gringotts.Outflow.Own.{IsOwnCall, OwnCalls, process-OwnCalls}

-- All that was withdrawn, by the counts of the store.
abbrev pub withdrawn : Store → ℕ
withdrawn s =
    get_or s.withdrawn_unlocked 0
    + get_or s.withdrawn_locked 0
    + get_or s.withdrawn_staking_rewards 0

-- Own calls and governance votes pay nothing.
paid-own :
    (self denom : String) (msgs : List CosmosMsg)
    → All (λ c. IsOwnCall self c) msgs
    → paid denom msgs ≡ 0
paid-own self denom [] own = refl
paid-own self denom (wasm (WasmMsg.execute to binary funds) ∷ msgs) (_, own) =
    paid-own self denom msgs own
paid-own self denom (gov _ ∷ msgs) (_, own) = paid-own self denom msgs own
paid-own self denom (bank _ ∷ msgs) (never, own) = absurd never
paid-own self denom (staking _ ∷ msgs) (never, own) = absurd never
paid-own self denom (distribution _ ∷ msgs) (never, own) = absurd never

-- What the response of a call adds to the counts, and what it pays.
abbrev pub Pays : String → Store → Store → Response → Type 0
Pays denom s s' r = (withdrawn s + paid denom r.messages) % u128_mod ≡ withdrawn s' % u128_mod

-- A call that pays nothing and writes no count.
nothing-Pays :
    (denom : String) (s s' : Store) (r : Response)
    → money s' ≡ money s
    → paid denom r.messages ≡ 0
    → Pays denom s s' r
nothing-Pays denom s s' r same e = ground (
  arith,
  e,
  ap (λ m. m.withdrawn_unlocked) same,
  ap (λ m. m.withdrawn_locked) same,
  ap (λ m. m.withdrawn_staking_rewards) same,
)

paid-payment : (n : ℕ) (to denom : String) → paid denom (payment n to denom).messages ≡ n
paid-payment n to denom = ground (arith, str_eq_iff denom denom)

module _ (env : Env) (info : MessageInfo) (s : Store) (v : IsBalanced s) where
  unlocked-Pays :
      (n : ℕ) (r : Response)
      → (execute_initiate_withdraw_unlocked env info n s).0 ≡ ok r
      → Pays v.denom s (execute_initiate_withdraw_unlocked env info n s).1 r
  unfolding execute_initiate_withdraw_unlocked authorize_op
  unlocked-Pays n r e = elim (Option-cases (may_load info.sender s.ops)) [
    | inl outsider ↦ absurd (ground arith)
    | inr (x, is_op) ↦ elim (Bool-cases (ltb (vested env.block.time v.schedule) n)) [
      | inl short ↦ absurd (short_fails env info s v n (ground arith) (ground (arith, e)))
      | inr enough ↦
          let pays = withdraw_unlocked_pays env info n s v is_op (ground arith) in
          ground (arith, pays, paid-payment n v.unlock_address v.denom, v.has_unlocked)
    ]
  ]

  locked-Pays :
      (dst : Addr) (r : Response)
      → (execute_internal_withdraw_locked env info dst s).0 ≡ ok r
      → Pays v.denom s (execute_internal_withdraw_locked env info dst s).1 r
  unfolding execute_internal_withdraw_locked authorize_self_call
  locked-Pays dst r e = elim (Bool-cases (str_eq env.address info.sender)) [
    | inr other ↦ absurd (ground arith)
    | inl self ↦
        let pays =
          withdraw_locked_pays env info dst s v ((str_eq_iff env.address info.sender).0 self) in
        ground (arith, pays, str_eq_iff v.denom v.denom, v.has_locked)
  ]

  reward-Pays :
      (querier : Querier) (r : Response)
      → (execute_initiate_withdraw_reward querier env info s).0 ≡ ok r
      → Pays v.denom s (execute_initiate_withdraw_reward querier env info s).1 r
  reward-Pays querier r e =
      ground
        (arith, withdraw_reward-sent_where s v (λ a. true) refl querier env info e, v.has_rewards)

  update_op-Pays :
      (op : Addr) (remove : Bool) (r : Response)
      → (execute_update_op info op remove s).0 ≡ ok r
      → Pays v.denom s (execute_update_op info op remove s).1 r
  unfolding execute_update_op authorize_admin
  update_op-Pays op remove r e = ground arith

  update_admin-Pays :
      (a : Addr) (remove : Bool) (r : Response)
      → (execute_internal_update_admin env info a remove s).0 ≡ ok r
      → Pays v.denom s (execute_internal_update_admin env info a remove s).1 r
  unfolding execute_internal_update_admin authorize_self_call
  update_admin-Pays a remove r e = ground arith

  unlock_address-Pays :
      (a : Addr) (r : Response)
      → (execute_internal_update_unlocked_distribution_address env info a s).0 ≡ ok r
      → Pays v.denom s (execute_internal_update_unlocked_distribution_address env info a s).1 r
  unfolding execute_internal_update_unlocked_distribution_address authorize_self_call
  unlock_address-Pays a r e = ground arith

  reward_address-Pays :
      (a : Addr) (r : Response)
      → (execute_internal_update_staking_reward_distribution_address env info a s).0 ≡ ok r
      → Pays v.denom s
          (execute_internal_update_staking_reward_distribution_address env info a s).1
          r
  unfolding execute_internal_update_staking_reward_distribution_address authorize_self_call
  reward_address-Pays a r e = ground arith

  module _ (h : Host) (law : IsLawful h) (own : OwnCalls env.address s.proposals) where
    propose-Pays :
        (title : String) (msgs : List CosmosMsg) (r : Response)
        → (execute_propose h env info title msgs s).0 ≡ ok r
        → Pays v.denom s (execute_propose h env info title msgs s).1 r
    unfolding execute_propose authorize_admin
    propose-Pays title msgs r e = ground arith

    lifted-Pays :
        {A : Type 0} (a : Result A) (title : String) (msgs : A → List CosmosMsg) (r : Response)
        → ((lift a >>= λ b. execute_propose h env info title (msgs b)) s).0 ≡ ok r
        → Pays v.denom s ((lift a >>= λ b. execute_propose h env info title (msgs b)) s).1 r
    lifted-Pays (ok b) title msgs r e = propose-Pays title (msgs b) r e
    lifted-Pays (err _) title msgs r e = absurd (cc)
    lifted-Pays panic title msgs r e = absurd (cc)

    vote-Pays :
        (id : ℕ) (r : Response)
        → (execute_vote h env info id s).0 ≡ ok r
        → Pays v.denom s (execute_vote h env info id s).1 r
    unfolding execute_vote authorize_admin
    vote-Pays id r e = ground arith

    process-Pays :
        (id : ℕ) (r : Response)
        → (execute_process_proposal h env info id s).0 ≡ ok r
        → Pays v.denom s (execute_process_proposal h env info id s).1 r
    process-Pays id r e =
        nothing-Pays v.denom s (execute_process_proposal h env info id s).1 r
          (money-process_proposal h env info id s)
          (paid-own env.address v.denom r.messages (process-OwnCalls h law env info s own id e).1)

    -- What the response of a message pays in the denomination of the contract is what the message adds
    -- to the counts.
    pub execute-Pays :
        (querier : Querier) (msg : ExecuteMsg) (r : Response)
        → (execute h querier env info msg s).0 ≡ ok r
        → Pays v.denom s (execute h querier env info msg s).1 r
    unfolding execute execute_delegate execute_redelegate execute_undelegate delegate redelegate
        undelegate authorize_op execute_propose_update_admin
        execute_propose_update_unlocked_distribution_address
        execute_propose_update_staking_reward_distribution_address
        execute_propose_emergency_withdraw execute_propose_gov_vote
    execute-Pays querier (ExecuteMsg.delegate validator amount) r e = ground arith
    execute-Pays querier (ExecuteMsg.redelegate src dst amount) r e = ground arith
    execute-Pays querier (ExecuteMsg.undelegate validator amount) r e = ground arith
    execute-Pays querier (ExecuteMsg.initiate_withdraw_unlocked n) r e = unlocked-Pays n r e
    execute-Pays querier ExecuteMsg.initiate_withdraw_reward r e = reward-Pays querier r e
    execute-Pays querier (ExecuteMsg.update_op op remove) r e = update_op-Pays op remove r e
    execute-Pays querier (ExecuteMsg.propose_update_admin a remove) r e = lifted-Pays _ _ _ r e
    execute-Pays querier (ExecuteMsg.propose_update_unlocked_distribution_address a) r e =
        lifted-Pays _ _ _ r e
    execute-Pays querier (ExecuteMsg.propose_update_staking_reward_distribution_address a) r e =
        lifted-Pays _ _ _ r e
    execute-Pays querier (ExecuteMsg.propose_emergency_withdraw dst) r e = lifted-Pays _ _ _ r e
    execute-Pays querier (ExecuteMsg.propose_gov_vote id vote) r e = propose-Pays _ _ r e
    execute-Pays querier (ExecuteMsg.vote_proposal id) r e = vote-Pays id r e
    execute-Pays querier (ExecuteMsg.process_proposal id) r e = process-Pays id r e
    execute-Pays querier (ExecuteMsg.internal_update_admin a remove) r e =
        update_admin-Pays a remove r e
    execute-Pays querier (ExecuteMsg.internal_update_unlocked_distribution_address a) r e =
        unlock_address-Pays a r e
    execute-Pays querier (ExecuteMsg.internal_update_staking_reward_distribution_address a) r e =
        reward_address-Pays a r e
    execute-Pays querier (ExecuteMsg.internal_withdraw_locked dst) r e = locked-Pays dst r e
