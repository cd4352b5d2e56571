-- ===== src/Governance/Backed.antt =====
-- What is processed has the votes of the threshold behind it.
use mathlib.Core.Path.{subst}
use gringotts.Base.{
  ℕ, ◌*◌, ◌<◌, ◌≤◌, ◌≡◌, ◌≢◌, ◌⊎◌, ◌∙◌, sym, ap, some, String, List, ◌+◌, length, All, arith, inl,
  inr,
}
use gringotts.Word.{u64_mod}
use gringotts.Error.{ok}
use gringotts.Cosmos.{
  CosmosMsg, BlockInfo, Env, MessageInfo, Response, absolute_percentage, Status, open_status,
  passed, executed, yes_vote, Proposal,
}
use gringotts.Host.{Host, IsLawful, IsCounting}
use gringotts.Msg.{InstantiateMsg, VoteInfo}
use gringotts.Storage.{may_load}
use gringotts.Storage.Keys.{nat_key}
use gringotts.Storage.Entries.{All-insert, All-may_load}
use gringotts.State.{Store, get_number_of_admins}
use gringotts.Chain.{Call, run}
use gringotts.Contract.Instantiate.{instantiate}
use gringotts.Contract.Propose.{execute_propose}
use gringotts.Contract.Vote.{execute_process_proposal}
use gringotts.Contract.Query.{query_votes}
use gringotts.Governance.Step.{
  Gov, gov, Step, idle, proposed, voted, processed, fresh, propose-Step,
}
use gringotts.Governance.Run.{
  nothing, gov-instantiate, instantiate-Sound, run-Sound, run-Later, run_steps,
}
use gringotts.Governance.Promises.{process-sends}
use gringotts.Governance.Configured.{run-threshold, propose-weight}
use gringotts.Governance.Sound.{Sound, Step-Sound}

open_or_not : (t : Status) → (t ≡ open_status) ⊎ (t ≢ open_status)
open_or_not t = ground arith

module _ (h : Host) (law : IsLawful h) (counts : IsCounting h) where
  -- Nobody abstained, and where the status is passed, the yes votes are the percentage.
  abbrev Backed : Proposal → Type 0
  Backed p =
      (p.votes.abstain_weight ≡ 0)
      × ((n : ℕ)
          → p.threshold ≡ absolute_percentage (h.percent n)
          → p.status ≡ passed
          → n * p.total_weight ≤ p.votes.yes_weight * 100)

  open_passes :
      (p : Proposal) (b : BlockInfo) (n : ℕ)
      → p.votes.abstain_weight ≡ 0
      → p.status ≡ open_status
      → p.threshold ≡ absolute_percentage (h.percent n)
      → h.current_status p b ≡ passed
      → n * p.total_weight ≤ p.votes.yes_weight * 100
  open_passes p b n none_abstained is_open by now =
      subst (λ k. n * k ≤ p.votes.yes_weight * 100) (omega (arith, none_abstained))
        (counts.passed_lem p b n is_open by now)

  updated-Backed :
      (p : Proposal) (b : BlockInfo)
      → p.votes.abstain_weight ≡ 0
      → p.status ≡ open_status
      → Backed (h.update_status p b)
  updated-Backed p b none_abstained is_open =
      subst Backed (sym (law.update_status_lem p b))
        (none_abstained, λ n by now. open_passes p b n none_abstained is_open by now)

  processed-Backed :
      (p : Proposal) (b : BlockInfo)
      → p.votes.abstain_weight ≡ 0
      → Backed (record (h.update_status p b) { status = executed })
  processed-Backed p b none_abstained =
      subst (λ q. Backed (record q { status = executed })) (sym (law.update_status_lem p b))
        (none_abstained, λ n by e. absurd (cc (e)))

  abbrev AllBacked : Gov → Type 0
  AllBacked g = All (λ e. Backed e.1) g.proposals

  Step-AllBacked : (g g' : Gov) → Step h g g' → AllBacked g → AllBacked g'
  Step-AllBacked g g' (idle e) all = subst AllBacked (sym e) all
  Step-AllBacked g g' (proposed p b voter one is_open e) all = subst AllBacked (sym e) (
      All-insert Backed (fresh g) (h.update_status p b) g.proposals
        (updated-Backed p b (ap (λ v. v.abstain_weight) one ∙ counts.votes_yes_abstain 1) is_open)
        all)
  Step-AllBacked g g' (voted id p b voter present is_open unvoted e) all =
      let w = record p { votes = h.add_vote p.votes yes_vote 1 } in
      subst AllBacked (sym e) (
        All-insert Backed id (h.update_status w b) g.proposals
          (updated-Backed w b
            (counts.add_vote_abstain p.votes 1
              ∙ (All-may_load Backed id p g.proposals all present).0)
            is_open)
          all)
  Step-AllBacked g g' (processed id p b present is_passed e) all = subst AllBacked (sym e) (
      All-insert Backed id (record (h.update_status p b) { status = executed }) g.proposals
        (processed-Backed p b (All-may_load Backed id p g.proposals all present).0) all)

  nothing-AllBacked : (g : Gov) → g ≡ nothing → AllBacked g
  nothing-AllBacked g e = subst AllBacked (sym e) tt

  loaded :
      (g : Gov) (id : ℕ) (p : Proposal) → may_load id g.proposals ≡ some p → AllBacked g → Backed p
  loaded g id p present all = All-may_load Backed id p g.proposals all present

  -- Whatever its stored status, a proposal whose current status is passed has the votes.
  current-Backed :
      (p : Proposal) (b : BlockInfo) (n : ℕ)
      → Backed p
      → h.current_status p b ≡ passed
      → p.threshold ≡ absolute_percentage (h.percent n)
      → n * p.total_weight ≤ p.votes.yes_weight * 100
  current-Backed p b n (none_abstained, backed) now by = elim (open_or_not p.status) [
    | inl is_open ↦ open_passes p b n none_abstained is_open by now
    | inr closed ↦ backed n by (sym (law.current_status_lem p b closed) ∙ now)
  ]

  -- The votes that are listed for a stored proposal are those that it counts.
  listed_votes :
      (n id : ℕ) (s : Store) (p : Proposal) (votes : List VoteInfo)
      → Sound n (gov s)
      → may_load id s.proposals ≡ some p
      → query_votes id s ≡ ok votes
      → p.votes.yes_weight ≡ length votes
  unfolding query_votes
  listed_votes n id s p votes sound present listed = ground (arith, sound.tallied id p present)

  AllBacked-run :
      (calls : List Call) (s : Store) (n : ℕ)
      → Sound n (gov s)
      → n + length calls < u64_mod
      → AllBacked (gov s)
      → AllBacked (gov (run h calls s))
  AllBacked-run =
      run_steps h law AllBacked λ m g g' sound room step all. Step-AllBacked g g' step all

  -- With a lawful host that counts by percentage, from a successful instantiation in a storage without
  -- proposals on, and with fewer than 2^64 calls in all: a proposal that was made is processed after any
  -- further calls only when the votes that `query_votes` lists for it then are at least the percentage of
  -- the instantiation of the number of admins when it was made.
  pub process-query_votes :
      (env : Env) (info : MessageInfo) (msg : InstantiateMsg) (storage : Store) {r : Response}
      → gov storage ≡ nothing
      → (instantiate h env info msg storage).0 ≡ ok r
      → (calls more : List Call) → length calls + length more + 1 < u64_mod
      → (env' : Env) (info' : MessageInfo) (title : String) (msgs : List CosmosMsg) (id : ℕ)
        {r' r'' : Response} {votes : List VoteInfo}
      → let made = run h calls (instantiate h env info msg storage).1 in
        (execute_propose h env' info' title msgs made).0 ≡ ok r'
        → (execute_propose h env' info' title msgs made).1.proposal_count ≡ some id
        → (env'' : Env) (info'' : MessageInfo)
        → let s = run h more (execute_propose h env' info' title msgs made).1 in
          query_votes id s ≡ ok votes
          → (execute_process_proposal h env'' info'' id s).0 ≡ ok r''
          → msg.admin_voting_threshold_percentage * get_number_of_admins made ≤ length votes * 100
  process-query_votes env info msg storage empty works calls more fits env' info' title msgs id {r'}
        {r''} {votes} e count env'' info'' listed processes =
      let start = (instantiate h env info msg storage).1 in
      let made = run h calls start in
      let next = (execute_propose h env' info' title msgs made).1 in
      let s = run h more next in
      let n = msg.admin_voting_threshold_percentage in
      let m = 0 + length calls in
      let step = propose-Step h env' info' made r' title msgs e in
      let sound0 = instantiate-Sound h env info msg storage empty in
      let sound1 = run-Sound h law calls start 0 sound0 (omega arith) in
      let sound2 = Step-Sound m (gov made) sound1 (omega arith) h law (gov next) step in
      let sound3 = run-Sound h law more next (m + 1) sound2 (omega arith) in
      let all1 =
        AllBacked-run calls start 0 sound0 (omega arith)
          (nothing-AllBacked (gov start) (gov-instantiate h env info msg storage ∙ empty)) in
      let all2 = Step-AllBacked (gov made) (gov next) step all1 in
      let all3 = AllBacked-run more next (m + 1) sound2 (omega arith) all2 in
      let (p, stored, by, weight) =
        propose-weight h law env' info' title msgs made id e count
          (run-threshold h env info msg storage works calls) in
      let (q, present, (same, _)) =
        (run-Later h law more next (m + 1) sound2 (omega arith)).proposals_stay id p stored in
      let now = (process-sends h law env'' info'' id s q present processes).0 in
      let enough =
        current-Backed q env''.block n (loaded (gov s) id q present all3) now
          (ap (λ t. t.threshold) same ∙ by) in
      let weighed = ap (λ t. t.total_weight) same ∙ weight in
      let tally = listed_votes (m + 1 + length more) id s q votes sound3 present listed in
      ground (arith, enough, weighed, tally)
