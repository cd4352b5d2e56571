-- ===== src/Governance/Live.antt =====
-- Enough admins carry a proposal: their votes are accepted, and it can then be processed.
use mathlib.Core.Path.{subst}
use gringotts.Base.{
  String, ℕ, ◌+◌, ◌*◌, ◌<◌, ◌≤◌, ◌≡◌, ◌≢◌, ◌∙◌, refl, sym, ap, false, none, some, List, length, All,
  arith, inl, inr,
}
use gringotts.Word.{u64_mod}
use gringotts.Error.{ok, Result-cases}
use gringotts.Cosmos.{
  Duration, CosmosMsg, Addr, Env, MessageInfo, Response, Decimal, absolute_percentage,
}
use gringotts.Host.{Host, Querier, IsLawful, IsTallying}
use gringotts.Storage.{may_load, may_load-insert_self}
use gringotts.Storage.Keys.{nat_key, string_key, ballot_key}
use gringotts.State.{Store, get_number_of_admins}
use gringotts.Chain.{run}
use gringotts.Contract.Propose.{execute_propose}
use gringotts.Contract.Vote.{execute_process_proposal}
use gringotts.Governance.Carried.{Distinct, CanVote, votes_by, Carried, run_votes, Carried-passed}
use gringotts.Governance.Outcomes.{process-IsOk}
use gringotts.Governance.Promises.{process-sends}
use gringotts.Governance.Step.{opened, propose_exact}

propose-admins :
    (h : Host) (env : Env) (info : MessageInfo) (title : String) (msgs : List CosmosMsg) (s : Store)
    → (execute_propose h env info title msgs s).1.admins ≡ s.admins
unfolding execute_propose
propose-admins h env info title msgs s = ground arith

module _ (h : Host) (law : IsLawful h) (tally : IsTallying h) (querier : Querier) (env : Env)
    (id : ℕ) where
  -- The proposal as it is made, needing as many votes as there are voters.
  opened-Carried :
      (d : Decimal) (info : MessageInfo) (title : String) (msgs : List CosmosMsg) (s : Store)
      (n : ℕ) {r : Response} {period : Duration}
      → (execute_propose h env info title msgs s).0 ≡ ok r
      → (execute_propose h env info title msgs s).1.proposal_count ≡ some id
      → s.max_voting_period ≡ some period
      → s.admin_voting_threshold ≡ some (absolute_percentage d)
      → h.is_expired (h.after period env.block) env.block ≡ false
      → 1 + n < u64_mod
      → d * get_number_of_admins s ≤ (1 + n) * 1000000000000000000
      → Carried h law tally querier env id d msgs n (execute_propose h env info title msgs s).1
  opened-Carried d info title msgs s n {r} {period} e count has_period has_threshold running fits
        enough =
      let effect = propose_exact h env info s r title msgs has_period has_threshold e in
      let p = opened h env info s title msgs period (absolute_percentage d) in
      let q = h.update_status p env.block in
      let same = law.update_status_lem p env.block in
      let others = tally.votes_yes_others 1 in
      let one = law.votes_yes_lem 1 in
      record {
        proposal = q;
        present = ground (
          arith,
          count,
          ap (λ g. g.proposal_count) effect,
          ap (λ g. g.proposals) effect,
          may_load-insert_self id q s.proposals,
        );
        same_msgs = ap (λ x. x.msgs) same;
        state = elim (tally.stays_lem p env.block refl running others.0 others.1) [
          | inl still ↦ inr (ground (arith, same, others, one, still))
          | inr now ↦ inl (ground (arith, same, now))
        ];
      }

  process-Carried :
      (d : Decimal) (msgs : List CosmosMsg) (s : Store)
      (c : Carried h law tally querier env id d msgs 0 s) (info : MessageInfo)
      → may_load info.sender s.admins ≢ none
      → (r : Response) × ((execute_process_proposal h env info id s).0 ≡ ok r) × (r.messages ≡ msgs)
  process-Carried d msgs s c info is_admin =
      let works =
        (process-IsOk h env info id s c.present law).1
          (is_admin, Carried-passed h law tally querier env id d msgs s c) in
      elim (Result-cases (execute_process_proposal h env info id s).0) [
        | inl (r, e) ↦
            (r, e, (process-sends h law env info id s c.proposal c.present e).1 ∙ c.same_msgs)
        | inr failed ↦ absurd (ground (arith, works))
      ]

  -- With a lawful host that tallies by percentage: a proposal that was made under the threshold `d`, a
  -- fraction of 10^18, and on which the distinct `voters`, admins who have no ballot on it, then vote in
  -- the same block, is processed for any admin, and sends the messages it was made of, where the proposer
  -- and the voters are that fraction of the admins and the proposal does not expire in that block.
  pub process-votes_by :
      (d : Decimal) (info : MessageInfo) (title : String) (msgs : List CosmosMsg) (s : Store)
      {r : Response} {period : Duration}
      → (execute_propose h env info title msgs s).0 ≡ ok r
      → (execute_propose h env info title msgs s).1.proposal_count ≡ some id
      → s.max_voting_period ≡ some period
      → s.admin_voting_threshold ≡ some (absolute_percentage d)
      → h.is_expired (h.after period env.block) env.block ≡ false
      → (voters : List Addr) → Distinct voters
      → All (λ a. CanVote id (execute_propose h env info title msgs s).1 a) voters
      → 1 + length voters < u64_mod
      → d * get_number_of_admins s ≤ (1 + length voters) * 1000000000000000000
      → (info' : MessageInfo) → may_load info'.sender s.admins ≢ none
      → let s' =
          run h (votes_by querier env id voters) (execute_propose h env info title msgs s).1 in
        (r' : Response) × ((execute_process_proposal h env info' id s').0 ≡ ok r')
        × (r'.messages ≡ msgs)
  process-votes_by d info title msgs s e count has_period has_threshold running voters distinct can
        fits enough info' is_admin =
      let s1 = (execute_propose h env info title msgs s).1 in
      let start =
        opened-Carried d info title msgs s (length voters) e count has_period has_threshold running
          fits enough in
      let (carried, same) =
        run_votes h law tally querier env id d msgs voters s1 distinct can start in
      process-Carried d msgs (run h (votes_by querier env id voters) s1) carried info' (
        subst (λ m. may_load info'.sender m ≢ none)
          (sym (same ∙ propose-admins h env info title msgs s)) is_admin)
