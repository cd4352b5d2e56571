-- ===== src/Governance/Sound.antt =====
-- The invariant of proposals and ballots, and that each step keeps it.
use mathlib.Core.Path.{subst}
use gringotts.Base.{ℕ, ◌+◌, ◌<◌, ◌≤◌, ◌≡◌, sym, ap, none, some, get_or, length, arith}
use gringotts.Word.{u64_mod, add64_lem}
use gringotts.Cosmos.{Addr, BlockInfo, Proposal, executed, yes_vote}
use gringotts.Host.{Host, IsLawful}
use gringotts.Storage.{may_load, may_load-insert}
use gringotts.Storage.Keys.{nat_key, ballot_key}
use gringotts.Governance.Step.{
  Gov, Step, idle, proposed, voted, processed, fresh, propose, vote_on, process, yes_ballot,
}
use gringotts.Governance.Votes.{tally, tally-insert, tally-zero, tally-le-length, length-insert}

abbrev pub count : Gov → ℕ
count g = get_or g.proposal_count 0

-- After at most `n` steps: ids above the count are unused, the yes votes of a proposal are its ballots,
-- and neither the ids nor the ballots are more than the steps.
pub record Sound (n : ℕ) (g : Gov) : Type 0 where
  pub few_ids : count g ≤ n
  pub few_ballots : length g.ballots ≤ n
  pub no_proposal : (id : ℕ) → count g < id → may_load id g.proposals ≡ none
  pub no_ballot : (id : ℕ) (a : Addr) → count g < id → may_load (id, a) g.ballots ≡ none
  pub tallied :
      (id : ℕ) (p : Proposal)
      → may_load id g.proposals ≡ some p
      → p.votes.yes_weight ≡ tally id g.ballots

module _ (n : ℕ) (g : Gov) (v : Sound n g) (room : n + 1 < u64_mod) where
  pub fresh_lem : fresh g ≡ count g + 1
  fresh_lem = let few = v.few_ids in add64_lem (count g) 1 (omega arith)

  module _ (h : Host) (law : IsLawful h) where
    -- What `update_status` and the votes before it leave in a proposal.
    updated_votes : (p : Proposal) (b : BlockInfo) → (h.update_status p b).votes ≡ p.votes
    updated_votes p b = ap (λ q. q.votes) (law.update_status_lem p b)

    propose-Sound :
        (p : Proposal) (b : BlockInfo) (voter : Addr)
        → p.votes ≡ h.votes_yes 1
        → Sound (n + 1) (propose h p b voter g)
    propose-Sound p b voter one =
        let few = v.few_ids in
        let few' = v.few_ballots in
        let new = fresh_lem in
        let id = fresh g in
        let q = h.update_status p b in
        record {
          few_ids = omega arith;
          few_ballots = omega (arith, length-insert id voter yes_ballot g.ballots);
          no_proposal =
              λ j above. ground (arith, may_load-insert id j q g.proposals, v.no_proposal j);
          no_ballot = λ j a above.
              ground
                (arith, may_load-insert (id, voter) (j, a) yes_ballot g.ballots, v.no_ballot j a);
          tallied = λ j r e. ground (
            arith,
            e,
            may_load-insert id j q g.proposals,
            tally-insert j id voter yes_ballot g.ballots (v.no_ballot id voter (omega arith)),
            tally-zero id g.ballots (λ a. v.no_ballot id a (omega arith)),
            v.tallied j r,
            updated_votes p b,
            one,
            law.votes_yes_lem 1,
          );
        }

    vote_on-Sound :
        (id : ℕ) (p : Proposal) (b : BlockInfo) (voter : Addr)
        → may_load id g.proposals ≡ some p
        → may_load (id, voter) g.ballots ≡ none
        → Sound (n + 1) (vote_on h id p b voter g)
    vote_on-Sound id p b voter present unvoted =
        let few = v.few_ids in
        let few' = v.few_ballots in
        let w = record p { votes = h.add_vote p.votes yes_vote 1 } in
        let q = h.update_status w b in
        let size = tally-le-length id g.ballots in
        let cast = v.tallied id p present in
        record {
          few_ids = omega arith;
          few_ballots = omega (arith, length-insert id voter yes_ballot g.ballots);
          no_proposal =
              λ j above. ground (arith, may_load-insert id j q g.proposals, v.no_proposal j);
          no_ballot = λ j a above. ground (
            arith,
            may_load-insert (id, voter) (j, a) yes_ballot g.ballots,
            v.no_ballot j a,
            v.no_proposal j,
          );
          tallied = λ j r e. ground (
            arith,
            e,
            may_load-insert id j q g.proposals,
            tally-insert j id voter yes_ballot g.ballots unvoted,
            v.tallied j r,
            updated_votes w b,
            law.add_vote_lem p.votes 1 (omega arith),
          );
        }

    process-Sound :
        (id : ℕ) (p : Proposal) (b : BlockInfo)
        → may_load id g.proposals ≡ some p
        → Sound (n + 1) (process h id p b g)
    process-Sound id p b present =
        let few = v.few_ids in
        let few' = v.few_ballots in
        let q = record (h.update_status p b) { status = executed } in
        record {
          few_ids = omega arith;
          few_ballots = omega arith;
          no_proposal =
              λ j above. ground (arith, may_load-insert id j q g.proposals, v.no_proposal j);
          no_ballot = v.no_ballot;
          tallied = λ j r e. ground (
            arith,
            e,
            may_load-insert id j q g.proposals,
            v.tallied j r,
            v.tallied id p present,
            updated_votes p b,
          );
        }

    idle-Sound : Sound (n + 1) g
    idle-Sound =
        let few = v.few_ids in
        let few' = v.few_ballots in
        record {
          few_ids = omega arith;
          few_ballots = omega arith;
          no_proposal = v.no_proposal;
          no_ballot = v.no_ballot;
          tallied = v.tallied;
        }

    pub Step-Sound : (g' : Gov) → Step h g g' → Sound (n + 1) g'
    Step-Sound g' (idle e) = subst (λ t. Sound (n + 1) t) (sym e) idle-Sound
    Step-Sound g' (proposed p b voter one is_open e) =
        subst (λ t. Sound (n + 1) t) (sym e) (propose-Sound p b voter one)
    Step-Sound g' (voted id p b voter present is_open unvoted e) =
        subst (λ t. Sound (n + 1) t) (sym e) (vote_on-Sound id p b voter present unvoted)
    Step-Sound g' (processed id p b present is_passed e) =
        subst (λ t. Sound (n + 1) t) (sym e) (process-Sound id p b present)
