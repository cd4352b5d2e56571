-- ===== src/Outflow/Strangers.antt =====
-- What a message sends to an address that the store and the message do not name.
use gringotts.Base.{
  ℕ, ◌≡◌, ◌≢◌, ◌⊎◌, refl, ap, some, String, str_eq_iff, List, [], ◌∷◌, All, arith, inl, inr,
  Option-cases,
}
use gringotts.Word.{add128}
use gringotts.Error.{Result-cases, Result, ok, err, panic}
use gringotts.Exec.{lift, ◌>>=◌}
use gringotts.Cosmos.{
  Addr, Env, MessageInfo, Response, CosmosMsg, wasm, gov, bank, staking, distribution, WasmMsg,
}
use gringotts.Host.{Host, Querier, IsLawful}
use gringotts.Msg.{ExecuteMsg}
use gringotts.State.{Store}
use gringotts.Permission.{authorize_op, authorize_admin, authorize_self_call}
use gringotts.Staking.{delegate, redelegate, undelegate}
use gringotts.Contract.Ops.{execute_delegate, execute_redelegate, execute_undelegate}
use gringotts.Vesting.{collect_vested}
use gringotts.Contract.Withdraw.{execute_initiate_withdraw_unlocked}
use gringotts.Contract.Propose.{
  execute_update_op, execute_propose, execute_propose_update_admin,
  execute_propose_update_unlocked_distribution_address,
  execute_propose_update_staking_reward_distribution_address, execute_propose_emergency_withdraw,
  execute_propose_gov_vote,
}
use gringotts.Contract.Vote.{execute_vote}
use gringotts.Contract.Internal.{
  execute_internal_update_admin, execute_internal_update_unlocked_distribution_address,
  execute_internal_update_staking_reward_distribution_address, execute_internal_withdraw_locked,
}
use gringotts.Contract.Execute.{execute}
use gringotts.Accounting.Payments.{sent}
use gringotts.Roles.Frame.{roles-collect}
use gringotts.Outflow.Own.{IsOwnCall, OwnCalls, process-OwnCalls}
use gringotts.Outflow.Receivers.{IsStranger, unlocked-sent, reward-sent}

-- The message does not name the address as one that the contract pays.
abbrev pub Unnamed : Addr → ExecuteMsg → Type 0
Unnamed a (ExecuteMsg.internal_update_unlocked_distribution_address b) = b ≢ a
Unnamed a (ExecuteMsg.internal_update_staking_reward_distribution_address b) = b ≢ a
Unnamed a (ExecuteMsg.internal_withdraw_locked b) = b ≢ a
Unnamed a _ = Unit

-- A call that is not the contract's own, or does not name the address.
abbrev pub Spares : Addr → Env → MessageInfo → ExecuteMsg → Type 0
Spares a env info msg = (info.sender ≢ env.address) ⊎ Unnamed a msg

module _ (a denom : String) (h : Host) (law : IsLawful h) (env : Env) (info : MessageInfo)
    (s : Store) where
  sent-own :
      (msgs : List CosmosMsg) → All (λ c. IsOwnCall env.address c) msgs → sent a denom msgs ≡ 0
  sent-own [] own = refl
  sent-own (wasm (WasmMsg.execute to binary funds) ∷ msgs) (_, own) = sent-own msgs own
  sent-own (gov _ ∷ msgs) (_, own) = sent-own msgs own
  sent-own (bank _ ∷ msgs) (never, own) = absurd never
  sent-own (staking _ ∷ msgs) (never, own) = absurd never
  sent-own (distribution _ ∷ msgs) (never, own) = absurd never

  propose-sent :
      (title : String) (msgs : List CosmosMsg) (r : Response)
      → (execute_propose h env info title msgs s).0 ≡ ok r
      → sent a denom r.messages ≡ 0
  unfolding execute_propose authorize_admin
  propose-sent title msgs r e = ground arith

  lifted-sent :
      {A : Type 0} (b : Result A) (title : String) (msgs : A → List CosmosMsg) (r : Response)
      → ((lift b >>= λ c. execute_propose h env info title (msgs c)) s).0 ≡ ok r
      → sent a denom r.messages ≡ 0
  lifted-sent (ok c) title msgs r e = propose-sent title (msgs c) r e
  lifted-sent (err _) title msgs r e = absurd (cc)
  lifted-sent panic title msgs r e = absurd (cc)

  vote-sent :
      (id : ℕ) (r : Response)
      → (execute_vote h env info id s).0 ≡ ok r
      → sent a denom r.messages ≡ 0
  unfolding execute_vote authorize_admin
  vote-sent id r e = ground arith

  locked-sent :
      (dst : Addr) (r : Response)
      → (info.sender ≢ env.address) ⊎ (dst ≢ a)
      → (execute_internal_withdraw_locked env info dst s).0 ≡ ok r
      → sent a denom r.messages ≡ 0
  unfolding execute_internal_withdraw_locked authorize_self_call
  locked-sent dst r (inl other) e = absurd (ground (arith, str_eq_iff env.address info.sender))
  locked-sent dst r (inr other) e = ground (arith, str_eq_iff dst a)

  unlocked_call-sent :
      (n : ℕ) (r : Response)
      → IsStranger a s
      → (execute_initiate_withdraw_unlocked env info n s).0 ≡ ok r
      → sent a denom r.messages ≡ 0
  unfolding execute_initiate_withdraw_unlocked authorize_op
  unlocked_call-sent n r stranger e =
      let t = (collect_vested env.block.time n s).1 in
      let same =
        ap (λ x. x.by_vote.unlock_distribution_address) (roles-collect s env.block.time n) in
      elim (Result-cases (collect_vested env.block.time n s).0) [
        | inr failed ↦ absurd (ground arith)
        | inl (m, collected) ↦ elim (Option-cases t.withdrawn_unlocked) [
          | inl missing ↦ absurd (ground arith)
          | inr (old, has) ↦
              unlocked-sent a denom s stranger m
                (record t { withdrawn_unlocked = some (add128 old m) }) r same (ground arith)
        ]
      ]

  -- A message that succeeds sends nothing to a stranger whom it does not name.
  pub execute-sent :
      (querier : Querier) (msg : ExecuteMsg) (r : Response)
      → IsStranger a s
      → OwnCalls env.address s.proposals
      → Spares a env info msg
      → (execute h querier env info msg s).0 ≡ ok r
      → sent a denom r.messages ≡ 0
  unfolding execute execute_delegate execute_redelegate execute_undelegate delegate redelegate
      undelegate authorize_op execute_propose_update_admin
      execute_propose_update_unlocked_distribution_address
      execute_propose_update_staking_reward_distribution_address execute_propose_emergency_withdraw
      execute_propose_gov_vote execute_update_op authorize_admin execute_internal_update_admin
      execute_internal_update_unlocked_distribution_address
      execute_internal_update_staking_reward_distribution_address authorize_self_call
  execute-sent querier (ExecuteMsg.delegate validator amount) r stranger own spares e = ground arith
  execute-sent querier (ExecuteMsg.redelegate src dst amount) r stranger own spares e = ground arith
  execute-sent querier (ExecuteMsg.undelegate validator amount) r stranger own spares e =
      ground arith
  execute-sent querier (ExecuteMsg.initiate_withdraw_unlocked n) r stranger own spares e =
      unlocked_call-sent n r stranger e
  execute-sent querier ExecuteMsg.initiate_withdraw_reward r stranger own spares e =
      reward-sent a denom s stranger querier env info r e
  execute-sent querier (ExecuteMsg.update_op op leaves) r stranger own spares e = ground arith
  execute-sent querier (ExecuteMsg.propose_update_admin b leaves) r stranger own spares e =
      lifted-sent _ _ _ r e
  execute-sent querier (ExecuteMsg.propose_update_unlocked_distribution_address b) r stranger own
        spares e =
      lifted-sent _ _ _ r e
  execute-sent querier (ExecuteMsg.propose_update_staking_reward_distribution_address b) r stranger
        own spares e =
      lifted-sent _ _ _ r e
  execute-sent querier (ExecuteMsg.propose_emergency_withdraw dst) r stranger own spares e =
      lifted-sent _ _ _ r e
  execute-sent querier (ExecuteMsg.propose_gov_vote id v) r stranger own spares e =
      propose-sent _ _ r e
  execute-sent querier (ExecuteMsg.vote_proposal id) r stranger own spares e = vote-sent id r e
  execute-sent querier (ExecuteMsg.process_proposal id) r stranger own spares e =
      sent-own r.messages (process-OwnCalls h law env info s own id e).1
  execute-sent querier (ExecuteMsg.internal_update_admin b leaves) r stranger own spares e =
      ground arith
  execute-sent querier (ExecuteMsg.internal_update_unlocked_distribution_address b) r stranger own
        spares e =
      ground arith
  execute-sent querier (ExecuteMsg.internal_update_staking_reward_distribution_address b) r stranger
        own spares e =
      ground arith
  execute-sent querier (ExecuteMsg.internal_withdraw_locked dst) r stranger own spares e =
      locked-sent dst r spares e
