-- ===== src/Governance/Step.antt =====
-- The proposals and the ballots as a state machine: what `Propose*`, `VoteProposal` and
-- `ProcessProposal` of contract.rs do to them when they succeed.
use gringotts.Base.{
  ℕ, String, ◌≡◌, refl, Option, none, some, get_or, List, arith, Option-cases, inl, inr,
}
use gringotts.Word.{add64}
use gringotts.Error.{ok}
use gringotts.Cosmos.{
  Addr, BlockInfo, Env, MessageInfo, Response, CosmosMsg, open_status, passed, executed, yes_vote,
  Ballot, Proposal, Duration, Threshold,
}
use gringotts.Host.{Host}
use gringotts.Storage.{Map, may_load, insert}
use gringotts.Storage.Keys.{nat_key, string_key, ballot_key}
use gringotts.Permission.{authorize_admin}
use gringotts.State.{Store, get_number_of_admins}
use gringotts.Contract.Propose.{execute_propose}
use gringotts.Contract.Vote.{execute_vote, execute_process_proposal}

pub record Gov : Type 0 where
  pub proposal_count : Option ℕ
  pub ballots : Map (ℕ × Addr) Ballot
  pub proposals : Map ℕ Proposal

abbrev pub gov : Store → Gov
gov s = record { proposal_count = s.proposal_count; ballots = s.ballots; proposals = s.proposals }

abbrev pub yes_ballot : Ballot
yes_ballot = record { weight = 1; vote = yes_vote }

-- The id that the next proposal gets.
abbrev pub fresh : Gov → ℕ
fresh g = add64 (get_or g.proposal_count 0) 1

module _ (h : Host) where
  abbrev pub propose : Proposal → BlockInfo → Addr → Gov → Gov
  propose p b voter g = record {
    proposal_count = some (fresh g);
    ballots = insert (fresh g, voter) yes_ballot g.ballots;
    proposals = insert (fresh g) (h.update_status p b) g.proposals;
  }

  abbrev pub vote_on : ℕ → Proposal → BlockInfo → Addr → Gov → Gov
  vote_on id p b voter g = record g {
    ballots = insert (id, voter) yes_ballot g.ballots;
    proposals =
        insert id (h.update_status (record p { votes = h.add_vote p.votes yes_vote 1 }) b)
          g.proposals;
  }

  abbrev pub process : ℕ → Proposal → BlockInfo → Gov → Gov
  process id p b g = record g {
    proposals = insert id (record (h.update_status p b) { status = executed }) g.proposals;
  }

  pub data Step (g g' : Gov) : Type 0 where
    idle : g' ≡ g → Step g g'
    proposed :
        (p : Proposal) (b : BlockInfo) (voter : Addr)
        → p.votes ≡ h.votes_yes 1
        → p.status ≡ open_status
        → g' ≡ propose p b voter g
        → Step g g'
    voted :
        (id : ℕ) (p : Proposal) (b : BlockInfo) (voter : Addr)
        → may_load id g.proposals ≡ some p
        → p.status ≡ open_status
        → may_load (id, voter) g.ballots ≡ none
        → g' ≡ vote_on id p b voter g
        → Step g g'
    processed :
        (id : ℕ) (p : Proposal) (b : BlockInfo)
        → may_load id g.proposals ≡ some p
        → (h.update_status p b).status ≡ passed
        → g' ≡ process id p b g
        → Step g g'

  abbrev pub opened :
      Env → MessageInfo → Store → String → List CosmosMsg → Duration → Threshold → Proposal
  opened env info s title msgs period threshold = record {
    title = title;
    description = "";
    start_height = env.block.height;
    expires = h.after period env.block;
    msgs = msgs;
    status = open_status;
    votes = h.votes_yes 1;
    threshold = threshold;
    total_weight = get_number_of_admins s;
    proposer = info.sender;
    deposit = none;
  }

  module _ (env : Env) (info : MessageInfo) (s : Store) (r : Response) where
    pub vote-Step :
        (id : ℕ)
        → (execute_vote h env info id s).0 ≡ ok r
        → Step (gov s) (gov (execute_vote h env info id s).1)
    unfolding execute_vote authorize_admin
    vote-Step id e = elim (Option-cases (may_load id s.proposals)) [
      | inl absent ↦ absurd (ground arith)
      | inr (p, present) ↦
          voted id p env.block info.sender present (ground arith) (ground arith) (ground arith)
    ]

    pub process-Step :
        (id : ℕ)
        → (execute_process_proposal h env info id s).0 ≡ ok r
        → Step (gov s) (gov (execute_process_proposal h env info id s).1)
    unfolding execute_process_proposal authorize_admin
    process-Step id e = elim (Option-cases (may_load id s.proposals)) [
      | inl absent ↦ absurd (ground arith)
      | inr (p, present) ↦ processed id p env.block present (ground arith) (ground arith)
    ]

    pub propose_exact :
        (title : String) (msgs : List CosmosMsg) {period : Duration} {threshold : Threshold}
        → s.max_voting_period ≡ some period
        → s.admin_voting_threshold ≡ some threshold
        → (execute_propose h env info title msgs s).0 ≡ ok r
        → gov (execute_propose h env info title msgs s).1
          ≡ propose (opened env info s title msgs period threshold) env.block info.sender (gov s)
    unfolding execute_propose authorize_admin
    propose_exact title msgs e1 e2 e = elim (Option-cases (may_load info.sender s.admins)) [
      | inl absent ↦ absurd (ground arith)
      | inr (x, e3) ↦ ground arith
    ]

    -- What a successful proposal was made of.
    pub propose_effect :
        (title : String) (msgs : List CosmosMsg)
        → (execute_propose h env info title msgs s).0 ≡ ok r
        → (period : Duration) × (threshold : Threshold) × (gov
              (execute_propose h env info title msgs s).1
            ≡ propose (opened env info s title msgs period threshold) env.block info.sender (gov s))
    unfolding execute_propose authorize_admin
    propose_effect title msgs e = elim (Option-cases s.max_voting_period) [
      | inl absent ↦ absurd (ground arith)
      | inr (period, e1) ↦ elim (Option-cases s.admin_voting_threshold) [
        | inl absent ↦ absurd (ground arith)
        | inr (threshold, e2) ↦ (period, threshold, propose_exact title msgs e1 e2 e)
      ]
    ]

    pub propose-Step :
        (title : String) (msgs : List CosmosMsg)
        → (execute_propose h env info title msgs s).0 ≡ ok r
        → Step (gov s) (gov (execute_propose h env info title msgs s).1)
    propose-Step title msgs e =
        let (period, threshold, effect) = propose_effect title msgs e in
        proposed (opened env info s title msgs period threshold) env.block info.sender refl refl
          effect
