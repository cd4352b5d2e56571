-- ===== src/Governance/Promises.antt =====
-- What the admins can rely on, from the instantiation of the contract in an empty storage on.
use mathlib.Core.Path.{subst}
use gringotts.Base.{
  Option-cases, ℕ, ◌+◌, ◌<◌, ◌≡◌, refl, ◌∙◌, ap, some, String, List, length, arith, inl, inr,
}
use gringotts.Word.{u64_mod}
use gringotts.Error.{ok}
use gringotts.Cosmos.{Env, MessageInfo, Response, CosmosMsg, passed, executed, Ballot, Proposal}
use gringotts.Host.{Host, IsLawful}
use gringotts.Storage.{may_load, may_load-insert_self}
use gringotts.Storage.Keys.{nat_key, ballot_key}
use gringotts.Msg.{InstantiateMsg, VoteInfo}
use gringotts.Permission.{authorize_admin}
use gringotts.State.{Store}
use gringotts.Chain.{Call, run}
use gringotts.Access.{Refuses}
use gringotts.Contract.Instantiate.{instantiate}
use gringotts.Contract.Propose.{execute_propose}
use gringotts.Contract.Vote.{execute_vote, execute_process_proposal}
use gringotts.Contract.Query.{query_votes}
use gringotts.Governance.Step.{gov, propose_effect, opened, process-Step, propose-Step, Step}
use gringotts.Governance.Sound.{Sound, Step-Sound}
use gringotts.Governance.Later.{Later, Onward}
use gringotts.Governance.Run.{nothing, instantiate-Sound, run-Sound, run-Later}

-- A voter whose ballot for a proposal is stored cannot vote on it.
vote-Refuses :
    (h : Host) (env : Env) (info : MessageInfo) (id : ℕ) (s : Store) (b : Ballot)
    → may_load (id, info.sender) s.ballots ≡ some b
    → Refuses s (execute_vote h env info id s)
unfolding execute_vote authorize_admin
vote-Refuses h env info id s b e = ground arith

process-Refuses :
    (h : Host) (law : IsLawful h) (env : Env) (info : MessageInfo) (id : ℕ) (s : Store)
    (p : Proposal)
    → may_load id s.proposals ≡ some p
    → p.status ≡ executed
    → Refuses s (execute_process_proposal h env info id s)
unfolding execute_process_proposal authorize_admin
process-Refuses h law env info id s p e done =
    ground (arith, law.update_status_lem p env.block, law.current_status_lem p env.block)

-- A proposal that was processed is stored as executed.
process-executed :
    (h : Host) (env : Env) (info : MessageInfo) (id : ℕ) (s : Store) {r : Response}
    → (execute_process_proposal h env info id s).0 ≡ ok r
    → (p : Proposal) × (may_load id (execute_process_proposal h env info id s).1.proposals ≡ some p)
      × (p.status ≡ executed)
unfolding execute_process_proposal authorize_admin
process-executed h env info id s e = elim (Option-cases (may_load id s.proposals)) [
  | inl absent ↦ absurd (ground arith)
  | inr (p, present) ↦
      let q = record (h.update_status p env.block) { status = executed } in
      (q, ground (arith, may_load-insert_self id q s.proposals), refl)
]

-- What a processed proposal sends.
pub process-sends :
    (h : Host) (law : IsLawful h) (env : Env) (info : MessageInfo) (id : ℕ) (s : Store)
    (p : Proposal) {r : Response}
    → may_load id s.proposals ≡ some p
    → (execute_process_proposal h env info id s).0 ≡ ok r
    → (h.current_status p env.block ≡ passed) × (r.messages ≡ p.msgs)
unfolding execute_process_proposal authorize_admin
process-sends h law env info id s p present e = ground (arith, law.update_status_lem p env.block)

-- A new proposal is stored with the messages it was made of.
propose-stored :
    (h : Host) (law : IsLawful h) (env : Env) (info : MessageInfo) (title : String)
    (msgs : List CosmosMsg) (s : Store) (id : ℕ) {r : Response}
    → (execute_propose h env info title msgs s).0 ≡ ok r
    → (execute_propose h env info title msgs s).1.proposal_count ≡ some id
    → (p : Proposal) × (may_load id (execute_propose h env info title msgs s).1.proposals ≡ some p)
      × (p.msgs ≡ msgs)
      × (p.proposer ≡ info.sender)
propose-stored h law env info title msgs s id {r} e count =
    let (period, threshold, effect) = propose_effect h env info s r title msgs e in
    let p = opened h env info s title msgs period threshold in
    let q = h.update_status p env.block in
    let same = law.update_status_lem p env.block in
    (
      q,
      ground (
        arith,
        count,
        ap (λ g. g.proposal_count) effect,
        ap (λ g. g.proposals) effect,
        may_load-insert_self id q s.proposals,
      ),
      ap (λ x. x.msgs) same,
      ap (λ x. x.proposer) same,
    )

module _ (h : Host) (law : IsLawful h) (env : Env) (info : MessageInfo) (msg : InstantiateMsg)
    (storage : Store) (empty : gov storage ≡ nothing) (calls : List Call) where
  -- The contract after the calls.
  abbrev reached : Store
  reached = run h calls (instantiate h env info msg storage).1

  reached-Sound : length calls < u64_mod → Sound (length calls) (gov reached)
  reached-Sound fits =
      subst (λ m. Sound m (gov reached)) (omega arith)
        (run-Sound h law calls (instantiate h env info msg storage).1 0
          (instantiate-Sound h env info msg storage empty) (omega arith))

  -- With a lawful host, and after an instantiation in a storage without proposals and fewer than 2^64
  -- calls: the yes votes that a stored proposal counts are as many as the votes that `query_votes`
  -- lists for it.
  pub yes_votes-query_votes :
      length calls < u64_mod
      → (id : ℕ) {p : Proposal} {votes : List VoteInfo} → may_load id reached.proposals ≡ some p
      → query_votes id reached ≡ ok votes
      → p.votes.yes_weight ≡ length votes
  unfolding query_votes
  yes_votes-query_votes fits id {p} {votes} e q =
      ground (arith, (reached-Sound fits).tallied id p e)

  module _ (more : List Call) (fits : length calls + length more + 1 < u64_mod) where
    -- After one more step that succeeded.
    grown : (s : Store) → Step h (gov reached) (gov s) → Later (gov s) (gov (run h more s))
    grown s step =
        let v = reached-Sound (omega arith) in
        let v' = Step-Sound (length calls) (gov reached) v (omega arith) h law _ step in
        run-Later h law more s (length calls + 1) v' (omega arith)

    reached-Later : Later (gov reached) (gov (run h more reached))
    reached-Later =
        run-Later h law more reached (length calls) (reached-Sound (omega arith)) (omega arith)

    -- With a lawful host, from an instantiation in a storage without proposals on, and with fewer than
    -- 2^64 calls in all: who has a ballot on a proposal does not succeed with a second vote on it after
    -- any further calls, and nothing is written.
    pub votes_once :
        (env' : Env) (info' : MessageInfo) (id : ℕ) {b : Ballot}
        → may_load (id, info'.sender) reached.ballots ≡ some b
        → Refuses (run h more reached) (execute_vote h env' info' id (run h more reached))
    votes_once env' info' id {b} e =
        vote-Refuses h env' info' id (run h more reached) b
          (reached-Later.ballots_stay id info'.sender b e)

    -- With a lawful host, from an instantiation in a storage without proposals on, and with fewer than
    -- 2^64 calls in all: a second processing of a proposal that was processed does not succeed after any
    -- further calls, and nothing is written.
    pub processes_once :
        (env' : Env) (info' : MessageInfo) (id : ℕ) {r : Response}
        → (execute_process_proposal h env' info' id reached).0 ≡ ok r
        → (env'' : Env) (info'' : MessageInfo)
        → let s = run h more (execute_process_proposal h env' info' id reached).1 in
          Refuses s (execute_process_proposal h env'' info'' id s)
    processes_once env' info' id {r} e env'' info'' =
        let s = (execute_process_proposal h env' info' id reached).1 in
        let (p, stored, done) = process-executed h env' info' id reached e in
        let (q, stored', (_, onward)) =
          (grown s (process-Step h env' info' reached r id e)).proposals_stay id p stored in
        process-Refuses h law env'' info'' id (run h more s) q stored'
          (subst (λ t. Onward t q.status) done onward)

    -- With a lawful host, from an instantiation in a storage without proposals on, and with fewer than
    -- 2^64 calls in all: when a proposal is made, and processed after any further calls, it is stored
    -- with its proposer, its status at that block is passed, and what is sent are the messages that it
    -- was proposed with.
    pub process-propose :
        (env' : Env) (info' : MessageInfo) (title : String) (msgs : List CosmosMsg) (id : ℕ)
        {r r' : Response}
        → (execute_propose h env' info' title msgs reached).0 ≡ ok r
        → (execute_propose h env' info' title msgs reached).1.proposal_count ≡ some id
        → (env'' : Env) (info'' : MessageInfo)
        → let s = run h more (execute_propose h env' info' title msgs reached).1 in
          (execute_process_proposal h env'' info'' id s).0 ≡ ok r'
          → (p : Proposal) × (may_load id s.proposals ≡ some p)
            × (p.proposer ≡ info'.sender)
            × (h.current_status p env''.block ≡ passed)
            × (r'.messages ≡ msgs)
    process-propose env' info' title msgs id {r} e count env'' info'' e' =
        let s = (execute_propose h env' info' title msgs reached).1 in
        let (p, stored, same_msgs, by) =
          propose-stored h law env' info' title msgs reached id e count in
        let (q, stored', (same, onward)) =
          (grown s (propose-Step h env' info' reached r title msgs e)).proposals_stay id p stored in
        let (is_passed, sent) = process-sends h law env'' info'' id (run h more s) q stored' e' in
        (
          q,
          stored',
          ap (λ t. t.proposer) same ∙ by,
          is_passed,
          sent ∙ ap (λ t. t.msgs) same ∙ same_msgs,
        )
