-- ===== src/Governance/Carried.antt =====
-- A proposal on which admins vote one after another.
use mathlib.Core.Path.{subst}
use gringotts.Base.{
  ℕ, suc, ◌+◌, ◌*◌, ◌<◌, ◌≤◌, ◌≡◌, ◌≢◌, ◌⊎◌, ◌∙◌, refl, sym, ap, false, none, some, List, [], ◌∷◌,
  map, length, All, arith, inl, inr,
}
use gringotts.Word.{u64_mod}
use gringotts.Cosmos.{
  CosmosMsg, Addr, Env, Decimal, absolute_percentage, open_status, passed, yes_vote, Proposal,
}
use gringotts.Host.{Host, Querier, IsLawful, IsTallying}
use gringotts.Storage.{may_load, insert, may_load-insert, may_load-insert_self}
use gringotts.Storage.Keys.{nat_key, string_key, ballot_key, ballot_beq_iff}
use gringotts.Msg.{ExecuteMsg}
use gringotts.Permission.{authorize_admin}
use gringotts.State.{Store}
use gringotts.Chain.{Call, commit, deliver, run}
use gringotts.Contract.Vote.{execute_vote}
use gringotts.Contract.Execute.{execute}
use gringotts.Governance.Step.{yes_ballot}

-- No address twice.
abbrev pub Distinct : List Addr → Type 0
Distinct [] = Unit
Distinct (a ∷ rest) = All (λ b. a ≢ b) rest × Distinct rest

All-keep :
    {P Q R : Addr → Type 0} (xs : List Addr)
    → All P xs
    → All Q xs
    → ((b : Addr) → P b → Q b → R b)
    → All R xs
All-keep [] ps qs f = tt
All-keep (x ∷ xs) (p, ps) (q, qs) f = (f x p q, All-keep xs ps qs f)

-- Who may vote on a proposal.
abbrev pub CanVote : ℕ → Store → Addr → Type 0
CanVote id s a = (may_load a s.admins ≢ none) × (may_load (id, a) s.ballots ≡ none)

-- A vote of an address, and one of each of a list.
abbrev pub vote_by : Querier → Env → ℕ → Addr → Call
vote_by querier env id a = record {
  querier = querier;
  env = env;
  info = record { sender = a; funds = [] };
  msg = ExecuteMsg.vote_proposal id;
}

abbrev pub votes_by : Querier → Env → ℕ → List Addr → List Call
votes_by querier env id = map (vote_by querier env id)

module _ (h : Host) (law : IsLawful h) (tally : IsTallying h) (querier : Querier) (env : Env)
    (id : ℕ) where
  -- The proposal with one more vote.
  abbrev pub voted_on : Proposal → Proposal
  voted_on p = h.update_status (record p { votes = h.add_vote p.votes yes_vote 1 }) env.block

  module _ (s : Store) (p : Proposal) (present : may_load id s.proposals ≡ some p) (a : Addr) where
    vote_passed : p.status ≡ passed → deliver h (vote_by querier env id a) s ≡ s
    unfolding deliver commit execute execute_vote authorize_admin
    vote_passed closed = ground arith

    vote_open :
        p.status ≡ open_status
        → h.is_expired p.expires env.block ≡ false
        → CanVote id s a
        → deliver h (vote_by querier env id a) s ≡ record s {
          ballots = insert (id, a) yes_ballot s.ballots;
          proposals = insert id (voted_on p) s.proposals;
        }
    unfolding deliver commit execute execute_vote authorize_admin
    vote_open is_open running (is_admin, unvoted) = ground arith

  -- The proposal needs `n` votes at most.
  abbrev pub Ongoing : Decimal → ℕ → Proposal → Type 0
  Ongoing d n p =
      (p.status ≡ open_status)
      × (h.is_expired p.expires env.block ≡ false)
      × (p.threshold ≡ absolute_percentage d)
      × (p.votes.no_weight ≡ 0)
      × (p.votes.veto_weight ≡ 0)
      × (p.votes.yes_weight + n < u64_mod)
      × (d * p.total_weight ≤ (p.votes.yes_weight + n) * 1000000000000000000)

  voted_on-Ongoing :
      (d n : ℕ) (p : Proposal)
      → Ongoing d (suc n) p
      → ((voted_on p).status ≡ passed) ⊎ Ongoing d n (voted_on p)
  voted_on-Ongoing d n p (is_open, running, by, no_zero, veto_zero, fits, enough) =
      let w = record p { votes = h.add_vote p.votes yes_vote 1 } in
      let same = law.update_status_lem w env.block in
      let others = tally.add_vote_others p.votes 1 in
      let counted = law.add_vote_lem p.votes 1 (omega arith) in
      let stays =
        tally.stays_lem w env.block is_open running (others.0 ∙ no_zero) (others.1 ∙ veto_zero) in
      elim stays [
        | inl still ↦ inr (ground (arith, same, others, counted, still))
        | inr now ↦ inl (ground (arith, same, now))
      ]

  -- The proposal is stored with its messages, and has passed or needs `n` votes at most.
  pub record Carried (d : Decimal) (msgs : List CosmosMsg) (n : ℕ) (s : Store) : Type 0 where
    pub proposal : Proposal
    pub present : may_load id s.proposals ≡ some proposal
    pub same_msgs : proposal.msgs ≡ msgs
    pub state : (proposal.status ≡ passed) ⊎ Ongoing d n proposal

  -- What a vote leaves to those who have not voted.
  CanVote-voted :
      (s : Store) (q : Proposal) (a b : Addr)
      → a ≢ b
      → CanVote id s b
      → CanVote id
          (record s {
            ballots = insert (id, a) yes_ballot s.ballots;
            proposals = insert id q s.proposals;
          })
          b
  CanVote-voted s q a b other (is_admin, unvoted) = (
    is_admin,
    ground (
      arith,
      other,
      unvoted,
      may_load-insert (id, a) (id, b) yes_ballot s.ballots,
      ballot_beq_iff (id, a) (id, b),
    ),
  )

  deliver_vote :
      (d : Decimal) (msgs : List CosmosMsg) (n : ℕ) (s : Store) (a : Addr)
      → Carried d msgs (suc n) s
      → CanVote id s a
      → Carried d msgs n (deliver h (vote_by querier env id a) s)
        × ((b : Addr)
            → a ≢ b
            → CanVote id s b
            → CanVote id (deliver h (vote_by querier env id a) s) b)
        × ((deliver h (vote_by querier env id a) s).admins ≡ s.admins)
  deliver_vote d msgs n s a c can = elim c.state [
    | inl closed ↦
        let same = sym (vote_passed s c.proposal c.present a closed) in
        subst
          (λ t.
            Carried d msgs n t
            × ((b : Addr) → a ≢ b → CanVote id s b → CanVote id t b)
            × (t.admins ≡ s.admins))
          same
          (
            record {
              proposal = c.proposal;
              present = c.present;
              same_msgs = c.same_msgs;
              state = inl closed;
            },
            λ b other can'. can',
            refl,
          )
    | inr ongoing ↦
        let q = voted_on c.proposal in
        let w = record c.proposal { votes = h.add_vote c.proposal.votes yes_vote 1 } in
        let same = sym (vote_open s c.proposal c.present a ongoing.0 ongoing.1 can) in
        subst
          (λ t.
            Carried d msgs n t
            × ((b : Addr) → a ≢ b → CanVote id s b → CanVote id t b)
            × (t.admins ≡ s.admins))
          same
          (
            record {
              proposal = q;
              present = may_load-insert_self id q s.proposals;
              same_msgs = ap (λ x. x.msgs) (law.update_status_lem w env.block) ∙ c.same_msgs;
              state = voted_on-Ongoing d n c.proposal ongoing;
            },
            λ b other can'. CanVote-voted s q a b other can',
            refl,
          )
  ]

  pub run_votes :
      (d : Decimal) (msgs : List CosmosMsg) (voters : List Addr) (s : Store)
      → Distinct voters
      → All (λ a. CanVote id s a) voters
      → Carried d msgs (length voters) s
      → Carried d msgs 0 (run h (votes_by querier env id voters) s)
        × ((run h (votes_by querier env id voters) s).admins ≡ s.admins)
  unfolding run
  run_votes d msgs [] s distinct can c = (c, refl)
  run_votes d msgs (a ∷ voters) s (others, distinct) (can, rest) c =
      let (c', keep, same) = deliver_vote d msgs (length voters) s a c can in
      let (c'', same') =
        run_votes d msgs voters (deliver h (vote_by querier env id a) s) distinct
          (All-keep voters others rest keep) c' in
      (c'', same' ∙ same)

  pub Carried-passed :
      (d : Decimal) (msgs : List CosmosMsg) (s : Store) (c : Carried d msgs 0 s)
      → h.current_status c.proposal env.block ≡ passed
  Carried-passed d msgs s c = elim c.state [
    | inl closed ↦ law.current_status_lem c.proposal env.block (λ e. cc (e, closed)) ∙ closed
    | inr (is_open, running, by, no_zero, veto_zero, fits, enough) ↦
        tally.passes_lem c.proposal env.block d is_open by (omega (arith, enough))
  ]
