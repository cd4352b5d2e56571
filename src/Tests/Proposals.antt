-- ===== src/Tests/Proposals.antt =====
-- What succeeds, and what is listed, at a concrete contract with four admins.
use gringotts.Base.{
  ◌*◌, ◌≤◌, length, ◌↔◌, ◌≢◌, false, map, reverse, ◌≡◌, refl, some, [], ◌∷◌, List, arith, none,
  to_string,
}
use gringotts.Word.{add64, add128}
use gringotts.Cosmos.{absolute_percentage_of, open_status, at_time, passed, Proposal}
use gringotts.Storage.{may_load, insert}
use gringotts.Storage.Keys.{nat_key, ballot_key, string_key}
use gringotts.Msg.{ProposalResponse, VoteInfo}
use gringotts.State.{get_number_of_admins}
use gringotts.Chain.{run}
use gringotts.Error.{IsOk}
use gringotts.Governance.Step.{gov}
use gringotts.Tranche.{validate}
use gringotts.Contract.Instantiate.{instantiate}
use gringotts.Contract.Query.{query_proposals, query_votes}
use gringotts.Contract.Propose.{execute_propose, execute_propose_emergency_withdraw}
use gringotts.Contract.Vote.{execute_vote, execute_process_proposal}
use gringotts.Contract.Execute.{execute}
use gringotts.Governance.Sound.{count}
use gringotts.Governance.Ids.{ids_from, ids-query_proposals}
use gringotts.Governance.Outcomes.{vote-IsOk, process-IsOk}
use gringotts.Governance.Lasting.{run-Onward}
use gringotts.Governance.Later.{terms, Onward}
use gringotts.Tests.Fixtures.{host, host-IsLawful, host-IsCounting, sent_by, setup, blank}
use gringotts.Tests.Accounting.{deployer}
use gringotts.Governance.Backed.{process-query_votes}
use gringotts.Tests.Governance.{vote_of, now, to_safe, voted, stored, reached, votes_of_others}

vote-IsOk_example : IsOk (execute_vote host now (sent_by "voter3") 1 (reached voted)).0 ↔ (
    (may_load "voter3" (reached voted).admins ≢ none)
    × (stored.status ≡ open_status)
    × (host.is_expired stored.expires now.block ≡ false)
    × (may_load (1, "voter3") (reached voted).ballots ≡ none))
unfolding instantiate validate run execute execute_propose_emergency_withdraw execute_vote may_load
    insert add64 add128 get_number_of_admins
vote-IsOk_example = vote-IsOk host now (sent_by "voter3") 1 (reached voted) {p = stored} refl

process-IsOk_example :
    IsOk (execute_process_proposal host now (sent_by "voter3") 1 (reached voted)).0 ↔ (
      (may_load "voter3" (reached voted).admins ≢ none)
      × (host.current_status stored now.block ≡ passed))
unfolding instantiate validate run execute execute_propose_emergency_withdraw execute_vote may_load
    insert add64 add128 get_number_of_admins
process-IsOk_example =
    process-IsOk host now (sent_by "voter3") 1 (reached voted) {p = stored} refl host-IsLawful

abbrev shown : List ProposalResponse
shown =
    record {
      id = 1;
      title = "emergecy withdraw to safe";
      description = "";
      msgs = to_safe;
      status = open_status;
      expires = at_time 3601000000000;
      threshold = absolute_percentage_of 750000000000000000 4;
      proposer = "voter1";
      deposit = none;
    }
    ∷ []

ids-query_proposals_example :
    map (λ (p : ProposalResponse). p.id) shown ≡ reverse (ids_from 1 (count (gov (reached voted))))
unfolding instantiate validate run execute execute_propose_emergency_withdraw execute_vote may_load
    insert add64 add128 get_number_of_admins query_proposals
ids-query_proposals_example =
    ids-query_proposals host host-IsLawful now deployer setup blank refl voted (omega arith) now
      {proposals = shown} refl

run-Onward_example :
    (q : Proposal) × (may_load 1 (run host votes_of_others (reached voted)).proposals ≡ some q)
    × (terms q ≡ terms stored)
    × Onward open_status q.status
unfolding instantiate validate run execute execute_propose_emergency_withdraw execute_vote may_load
    insert add64 add128 get_number_of_admins
run-Onward_example =
    run-Onward host host-IsLawful now deployer setup blank refl voted votes_of_others (omega arith)
      1 {p = stored} refl

abbrev votes : List VoteInfo
votes = vote_of "voter1" ∷ vote_of "voter2" ∷ vote_of "voter3" ∷ []

-- Three of four admins, for 75 percent.
process-query_votes_example : 75 * get_number_of_admins (reached []) ≤ length votes * 100
unfolding instantiate validate run execute execute_propose execute_vote execute_process_proposal
    may_load insert add64 add128 get_number_of_admins query_votes to_string
process-query_votes_example =
    process-query_votes host host-IsLawful host-IsCounting now deployer setup blank refl refl []
      votes_of_others (omega arith) now (sent_by "voter1") "title" to_safe 1 {votes = votes} refl
      refl now (sent_by "voter4") refl refl
