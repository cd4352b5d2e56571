-- ===== src/Outflow/Own.antt =====
-- Proposals hold calls of the contract itself and governance votes, and nothing else.
use mathlib.Core.Path.{subst}
use gringotts.Base.{
  Option-cases, ℕ, String, ◌≡◌, refl, sym, ap, some, List, [], All, arith, inl, inr,
}
use gringotts.Error.{Result, ok, err, panic}
use gringotts.Exec.{lift, ◌>>=◌}
use gringotts.Cosmos.{
  yes_vote, executed, Addr, Env, MessageInfo, Response, CosmosMsg, wasm, gov, WasmMsg, Proposal,
}
use gringotts.Host.{Host, Querier, IsLawful}
use gringotts.Storage.{Map, may_load, insert}
use gringotts.Storage.Keys.{nat_key}
use gringotts.Storage.Entries.{All-insert, All-may_load}
use gringotts.Permission.{authorize_admin}
use gringotts.Governance.Step.{opened, propose_effect}
use gringotts.Governance.Frame.{
  gov-withdraw_unlocked, gov-withdraw_locked, gov-update_op, gov-update_admin, gov-unlock_address,
  gov-reward_address, gov-withdraw_reward,
}
use gringotts.Msg.{ExecuteMsg}
use gringotts.State.{Store}
use gringotts.Contract.Propose.{
  execute_propose, execute_propose_update_admin,
  execute_propose_update_unlocked_distribution_address,
  execute_propose_update_staking_reward_distribution_address, execute_propose_emergency_withdraw,
  execute_propose_gov_vote,
}
use gringotts.Contract.Vote.{execute_vote, execute_process_proposal}
use gringotts.Contract.Execute.{execute}

-- A call of the contract at `self` without funds, or a vote in the chain's governance.
abbrev pub IsOwnCall : Addr → CosmosMsg → Type 0
IsOwnCall self (wasm (WasmMsg.execute to _ funds)) = (to ≡ self) × (funds ≡ [])
IsOwnCall self (gov _) = Unit
IsOwnCall self _ = ⊥

abbrev pub OwnCalls : Addr → Map ℕ Proposal → Type 0
OwnCalls self m = All (λ e. All (λ c. IsOwnCall self c) e.1.msgs) m

module _ (h : Host) (law : IsLawful h) (env : Env) (info : MessageInfo) (s : Store)
    (own : OwnCalls env.address s.proposals) where
  same_proposals : {m : Map ℕ Proposal} → m ≡ s.proposals → OwnCalls env.address m
  same_proposals same = subst (λ m. OwnCalls env.address m) (sym same) own

  propose-OwnCalls :
      (title : String) (msgs : List CosmosMsg) {r : Response}
      → All (λ c. IsOwnCall env.address c) msgs
      → (execute_propose h env info title msgs s).0 ≡ ok r
      → OwnCalls env.address (execute_propose h env info title msgs s).1.proposals
  propose-OwnCalls title msgs {r} mine e =
      let (period, threshold, effect) = propose_effect h env info s r title msgs e in
      let p = opened h env info s title msgs period threshold in
      subst (λ m. OwnCalls env.address m) (sym (ap (λ g. g.proposals) effect))
        (All-insert (λ q. All (λ c. IsOwnCall env.address c) q.msgs) _ _ s.proposals
          (subst (λ q. All (λ c. IsOwnCall env.address c) q.msgs)
            (sym (law.update_status_lem p env.block)) mine)
          own)

  lifted-OwnCalls :
      {A : Type 0} (a : Result A) (title : String) (msgs : A → List CosmosMsg) {r : Response}
      → ((b : A) → All (λ c. IsOwnCall env.address c) (msgs b))
      → ((lift a >>= λ b. execute_propose h env info title (msgs b)) s).0 ≡ ok r
      → OwnCalls env.address
          ((lift a >>= λ b. execute_propose h env info title (msgs b)) s).1.proposals
  lifted-OwnCalls (ok b) title msgs mine e = propose-OwnCalls title (msgs b) (mine b) e
  lifted-OwnCalls (err _) title msgs mine e = own
  lifted-OwnCalls panic title msgs mine e = own

  -- A proposal that is saved again keeps its messages.
  saved-OwnCalls :
      (id : ℕ) (p q : Proposal)
      → may_load id s.proposals ≡ some p
      → q.msgs ≡ p.msgs
      → OwnCalls env.address (insert id q s.proposals)
  saved-OwnCalls id p q present same =
      All-insert (λ x. All (λ c. IsOwnCall env.address c) x.msgs) id q s.proposals
        (subst (λ l. All (λ c. IsOwnCall env.address c) l) (sym same)
          (All-may_load (λ x. All (λ c. IsOwnCall env.address c) x.msgs) id p s.proposals own
            present))
        own

  vote-OwnCalls :
      (id : ℕ) {r : Response}
      → (execute_vote h env info id s).0 ≡ ok r
      → OwnCalls env.address (execute_vote h env info id s).1.proposals
  unfolding execute_vote authorize_admin
  vote-OwnCalls id e = elim (Option-cases (may_load id s.proposals)) [
    | inl absent ↦ absurd (ground arith)
    | inr (p, present) ↦
        let w = record p { votes = h.add_vote p.votes yes_vote 1 } in
        subst (λ m. OwnCalls env.address m) (ground arith)
          (saved-OwnCalls id p (h.update_status w env.block) present
            (ap (λ x. x.msgs) (law.update_status_lem w env.block)))
  ]

  pub process-OwnCalls :
      (id : ℕ) {r : Response}
      → (execute_process_proposal h env info id s).0 ≡ ok r
      → OwnCalls env.address (execute_process_proposal h env info id s).1.proposals
        × All (λ c. IsOwnCall env.address c) r.messages
  unfolding execute_process_proposal authorize_admin
  process-OwnCalls id {r} e = elim (Option-cases (may_load id s.proposals)) [
    | inl absent ↦ absurd (ground arith)
    | inr (p, present) ↦
        let q = record (h.update_status p env.block) { status = executed } in
        let same = ap (λ x. x.msgs) (law.update_status_lem p env.block) in
        (
          subst (λ m. OwnCalls env.address m) (ground arith) (saved-OwnCalls id p q present same),
          subst (λ l. All (λ c. IsOwnCall env.address c) l) (ground (arith, same))
              (All-may_load (λ x. All (λ c. IsOwnCall env.address c) x.msgs) id p s.proposals own
                present),
        )
  ]

  -- A message that succeeds leaves the proposals with own calls only.
  pub execute-OwnCalls :
      (querier : Querier) (msg : ExecuteMsg) {r : Response}
      → (execute h querier env info msg s).0 ≡ ok r
      → OwnCalls env.address (execute h querier env info msg s).1.proposals
  unfolding execute execute_propose_update_admin
      execute_propose_update_unlocked_distribution_address
      execute_propose_update_staking_reward_distribution_address execute_propose_emergency_withdraw
      execute_propose_gov_vote
  execute-OwnCalls querier (ExecuteMsg.delegate validator amount) e = own
  execute-OwnCalls querier (ExecuteMsg.redelegate src dst amount) e = own
  execute-OwnCalls querier (ExecuteMsg.undelegate validator amount) e = own
  execute-OwnCalls querier (ExecuteMsg.initiate_withdraw_unlocked amount) e =
      same_proposals (ap (λ g. g.proposals) (gov-withdraw_unlocked s env info amount))
  execute-OwnCalls querier ExecuteMsg.initiate_withdraw_reward e =
      same_proposals (ap (λ g. g.proposals) (gov-withdraw_reward s env info querier))
  execute-OwnCalls querier (ExecuteMsg.update_op op remove) e =
      same_proposals (ap (λ g. g.proposals) (gov-update_op s env info op remove))
  execute-OwnCalls querier (ExecuteMsg.propose_update_admin a remove) e =
      lifted-OwnCalls _ _ _ (λ b. ((refl, refl), tt)) e
  execute-OwnCalls querier (ExecuteMsg.propose_update_unlocked_distribution_address a) e =
      lifted-OwnCalls _ _ _ (λ b. ((refl, refl), tt)) e
  execute-OwnCalls querier (ExecuteMsg.propose_update_staking_reward_distribution_address a) e =
      lifted-OwnCalls _ _ _ (λ b. ((refl, refl), tt)) e
  execute-OwnCalls querier (ExecuteMsg.propose_emergency_withdraw dst) e =
      lifted-OwnCalls _ _ _ (λ b. ((refl, refl), tt)) e
  execute-OwnCalls querier (ExecuteMsg.propose_gov_vote id v) e = propose-OwnCalls _ _ (tt, tt) e
  execute-OwnCalls querier (ExecuteMsg.vote_proposal id) e = vote-OwnCalls id e
  execute-OwnCalls querier (ExecuteMsg.process_proposal id) e = (process-OwnCalls id e).0
  execute-OwnCalls querier (ExecuteMsg.internal_update_admin a remove) e =
      same_proposals (ap (λ g. g.proposals) (gov-update_admin s env info a remove))
  execute-OwnCalls querier (ExecuteMsg.internal_update_unlocked_distribution_address a) e =
      same_proposals (ap (λ g. g.proposals) (gov-unlock_address s env info a))
  execute-OwnCalls querier (ExecuteMsg.internal_update_staking_reward_distribution_address a) e =
      same_proposals (ap (λ g. g.proposals) (gov-reward_address s env info a))
  execute-OwnCalls querier (ExecuteMsg.internal_withdraw_locked dst) e =
      same_proposals (ap (λ g. g.proposals) (gov-withdraw_locked s env info dst))
