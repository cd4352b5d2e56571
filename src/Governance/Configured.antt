-- ===== src/Governance/Configured.antt =====
-- The threshold of a proposal and the weight that it is taken of.
use gringotts.Base.{◌∙◌, ℕ, ◌≡◌, ap, some, String, List, Option-cases, arith, inl, inr}
use gringotts.Error.{ok}
use gringotts.Cosmos.{
  Env, MessageInfo, Response, CosmosMsg, Threshold, absolute_percentage, Proposal,
}
use gringotts.Host.{Host, IsLawful}
use gringotts.Storage.{may_load, may_load-insert_self}
use gringotts.Storage.Keys.{nat_key}
use gringotts.Msg.{InstantiateMsg}
use gringotts.State.{Store, get_number_of_admins}
use gringotts.Chain.{Call, commit, deliver, run, run_induction}
use gringotts.Contract.Instantiate.{instantiate, save_initial}
use gringotts.Contract.Propose.{execute_propose}
use gringotts.Permission.{authorize_admin}
use gringotts.Roles.Change.{execute-permitted}
use gringotts.Governance.Step.{opened, propose_exact}

module _ (h : Host) where
  deliver-threshold :
      (c : Call) (s : Store) → (deliver h c s).admin_voting_threshold ≡ s.admin_voting_threshold
  unfolding deliver commit
  deliver-threshold c s =
      let fixed = (execute-permitted c.env c.info s h c.querier c.msg).0 in
      ground (arith, ap (λ x. x.admin_voting_threshold) fixed)

  instantiate-threshold :
      (env : Env) (info : MessageInfo) (msg : InstantiateMsg) (storage : Store) {r : Response}
      → (instantiate h env info msg storage).0 ≡ ok r
      → (instantiate h env info msg storage).1.admin_voting_threshold
        ≡ some (absolute_percentage (h.percent msg.admin_voting_threshold_percentage))
  unfolding instantiate save_initial
  instantiate-threshold env info msg storage e = ground arith

  -- After any calls, the stored threshold is the percentage of the instantiation.
  pub run-threshold :
      (env : Env) (info : MessageInfo) (msg : InstantiateMsg) (storage : Store) {r : Response}
      → (instantiate h env info msg storage).0 ≡ ok r
      → (calls : List Call)
      → (run h calls (instantiate h env info msg storage).1).admin_voting_threshold
        ≡ some (absolute_percentage (h.percent msg.admin_voting_threshold_percentage))
  run-threshold env info msg storage e calls =
      let kept = some (absolute_percentage (h.percent msg.admin_voting_threshold_percentage)) in
      run_induction h (λ t. t.admin_voting_threshold ≡ kept)
        (λ c t same. deliver-threshold c t ∙ same) calls (instantiate h env info msg storage).1
        (instantiate-threshold env info msg storage e)

  -- A new proposal is stored with the threshold of the store, and with the number of admins as the weight.
  pub propose-weight :
      (law : IsLawful h) (env : Env) (info : MessageInfo) (title : String) (msgs : List CosmosMsg)
      (s : Store) (id : ℕ) {r : Response} {threshold : Threshold}
      → (execute_propose h env info title msgs s).0 ≡ ok r
      → (execute_propose h env info title msgs s).1.proposal_count ≡ some id
      → s.admin_voting_threshold ≡ some threshold
      → (p : Proposal) × (may_load id (execute_propose h env info title msgs s).1.proposals
          ≡ some p)
        × (p.threshold ≡ threshold)
        × (p.total_weight ≡ get_number_of_admins s)
  unfolding execute_propose authorize_admin
  propose-weight law env info title msgs s id {r} {threshold} e count has_threshold =
      elim (Option-cases s.max_voting_period) [
        | inl absent ↦ absurd (ground arith)
        | inr (period, has_period) ↦
            let effect = propose_exact h env info s r title msgs has_period has_threshold e in
            let p = opened h env info s title msgs period threshold in
            let q = h.update_status p env.block in
            let same = law.update_status_lem p env.block in
            (
              q,
              ground (
                arith,
                count,
                ap (λ g. g.proposal_count) effect,
                ap (λ g. g.proposals) effect,
                may_load-insert_self id q s.proposals,
              ),
              ap (λ x. x.threshold) same,
              ap (λ x. x.total_weight) same,
            )
      ]
