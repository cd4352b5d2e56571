-- ===== src/Tests/Governance.antt =====
-- Proposals at a concrete contract with four admins, three of whom must agree.
use gringotts.Base.{
  str_eq_iff, ◌≢◌, to_string, String, ◌≡◌, refl, some, [], ◌∷◌, List, length, arith, none,
}
use gringotts.Word.{add64, add128}
use gringotts.Cosmos.{
  Env, yes_vote, open_status, at_time, absolute_percentage, WasmMsg, CosmosMsg, wasm, Response,
  passed, Proposal,
}
use gringotts.Storage.{may_load, insert}
use gringotts.Storage.Keys.{nat_key, ballot_key, string_key}
use gringotts.Msg.{ExecuteMsg, VoteInfo}
use gringotts.State.{Store, get_number_of_admins}
use gringotts.Chain.{Call, run}
use gringotts.Access.{Refuses, execute-Refuses}
use gringotts.Error.{Result, ok}
use gringotts.Governance.Step.{yes_ballot}
use gringotts.Tranche.{validate}
use gringotts.Contract.Instantiate.{instantiate}
use gringotts.Contract.Query.{query_votes}
use gringotts.Contract.Propose.{execute_propose, execute_propose_emergency_withdraw}
use gringotts.Contract.Vote.{execute_vote, execute_process_proposal}
use gringotts.Contract.Execute.{execute}
use gringotts.Governance.Carried.{votes_by}
use gringotts.Governance.Live.{process-votes_by}
use gringotts.Governance.Promises.{
  yes_votes-query_votes, votes_once, processes_once, process-propose,
}
use gringotts.Tests.Fixtures.{
  host, host-IsLawful, host-IsTallying, querier, env_at, sent_by, setup, blank,
}
use gringotts.Tests.Accounting.{deployer, call}

abbrev pub now : Env
now = env_at 1000000000

abbrev pub to_safe : List CosmosMsg
to_safe = wasm (WasmMsg.execute "contract" [] []) ∷ []

abbrev by : String → ExecuteMsg → Call
by sender msg = call 1000000000 (sent_by sender) msg

abbrev proposed : List Call
proposed = by "voter1" (ExecuteMsg.propose_emergency_withdraw "safe") ∷ []

abbrev pub voted : List Call
voted =
    by "voter1" (ExecuteMsg.propose_emergency_withdraw "safe")
    ∷ by "voter2" (ExecuteMsg.vote_proposal 1)
    ∷ by "voter2" (ExecuteMsg.vote_proposal 1)
    ∷ []

abbrev pub stored : Proposal
stored = record {
  title = "emergecy withdraw to safe";
  description = "";
  start_height = 1;
  expires = at_time 3601000000000;
  msgs = to_safe;
  status = open_status;
  votes = record { yes_weight = 2; no_weight = 0; abstain_weight = 0; veto_weight = 0 };
  threshold = absolute_percentage 750000000000000000;
  total_weight = 4;
  proposer = "voter1";
  deposit = none;
}

abbrev pub vote_of : String → VoteInfo
vote_of voter = record { proposal_id = 1; voter = voter; vote = yes_vote; weight = 1 }

abbrev votes : List VoteInfo
votes = vote_of "voter1" ∷ vote_of "voter2" ∷ []

yes_votes-query_votes_example : stored.votes.yes_weight ≡ length votes
unfolding instantiate validate run execute execute_propose_emergency_withdraw execute_vote may_load
    insert query_votes add64 add128 get_number_of_admins
yes_votes-query_votes_example =
    yes_votes-query_votes host host-IsLawful now deployer setup blank refl voted (omega arith) 1
      {p = stored} {votes = votes} refl refl

abbrev pub reached : List Call → Store
reached calls = run host calls (instantiate host now deployer setup blank).1

votes_once_example :
    Refuses
      (run host proposed (reached voted))
      (execute_vote host now (sent_by "voter2") 1 (run host proposed (reached voted)))
unfolding instantiate validate run execute execute_propose_emergency_withdraw execute_vote may_load
    insert add64 add128 get_number_of_admins
votes_once_example =
    votes_once host host-IsLawful now deployer setup blank refl voted proposed (omega arith) now
      (sent_by "voter2") 1 {b = yes_ballot} refl

abbrev pub agreed : List Call
agreed =
    by "voter1" (ExecuteMsg.propose_emergency_withdraw "safe")
    ∷ by "voter2" (ExecuteMsg.vote_proposal 1)
    ∷ by "voter3" (ExecuteMsg.vote_proposal 1)
    ∷ []

abbrev processed : Result Response × Store
processed = execute_process_proposal host now (sent_by "voter4") 1 (reached agreed)

processes_once_example :
    Refuses
      (run host proposed processed.1)
      (execute_process_proposal host now (sent_by "voter1") 1 (run host proposed processed.1))
unfolding instantiate validate run execute execute_propose_emergency_withdraw execute_vote
    execute_process_proposal may_load insert add64 add128 get_number_of_admins
processes_once_example =
    processes_once host host-IsLawful now deployer setup blank refl agreed proposed (omega arith)
      now (sent_by "voter4") 1 refl now (sent_by "voter1")

abbrev pub votes_of_others : List Call
votes_of_others =
    by "voter2" (ExecuteMsg.vote_proposal 1) ∷ by "voter3" (ExecuteMsg.vote_proposal 1) ∷ []

abbrev opened : Result Response × Store
opened = execute_propose host now (sent_by "voter1") "title" to_safe (reached [])

abbrev ready : Store
ready = run host votes_of_others opened.1

abbrev sent : Response
sent = record {
  messages = to_safe;
  attributes = ("action", "execute") ∷ ("sender", "voter4") ∷ ("proposal_id", "1") ∷ [];
}

process-propose_example :
    (p : Proposal) × (may_load 1 ready.proposals ≡ some p)
    × (p.proposer ≡ "voter1")
    × (host.current_status p now.block ≡ passed)
    × (sent.messages ≡ to_safe)
unfolding instantiate validate run execute execute_propose execute_vote execute_process_proposal
    may_load insert add64 add128 get_number_of_admins to_string
process-propose_example =
    process-propose host host-IsLawful now deployer setup blank refl [] votes_of_others
      (omega arith) now (sent_by "voter1") "title" to_safe 1 {r' = sent} refl refl now
      (sent_by "voter4") refl

execute-Refuses_example : Refuses (reached []) (
    execute host querier now
      (sent_by "voter5")
      (ExecuteMsg.propose_emergency_withdraw "safe")
      (reached []))
unfolding instantiate validate run may_load insert add64 add128
execute-Refuses_example =
    execute-Refuses now (sent_by "voter5") (reached []) host querier
      (ExecuteMsg.propose_emergency_withdraw "safe") refl

abbrev pub others : List String
others = "voter2" ∷ "voter3" ∷ []

pub different : ◌≢◌ {A = String} "voter2" "voter3"
different e = cc ((str_eq_iff "voter2" "voter3").1 e)

process-votes_by_example :
    (r : Response) × ((execute_process_proposal host now
        (sent_by "voter4")
        1
        (run host (votes_by querier now 1 others) opened.1)).0
      ≡ ok r)
    × (r.messages ≡ to_safe)
unfolding instantiate validate run execute execute_propose may_load insert add64 add128
    get_number_of_admins
process-votes_by_example =
    process-votes_by host host-IsLawful host-IsTallying querier now 1 750000000000000000
      (sent_by "voter1") "title" to_safe (reached []) refl refl refl refl refl others
      ((different, tt), (tt, tt)) (((λ e. cc), refl), (((λ e. cc), refl), tt)) (omega arith)
      (omega arith) (sent_by "voter4") (λ e. cc)
