-- ===== src/UnitTests/Queries.antt =====
-- The tests of contract.rs on the queries.
use gringotts.Base.{ℕ, ⊤, [], ◌∷◌, List, none}
use gringotts.Error.{Result, ok, panic}
use gringotts.Exec.{Exec, lift, reads, save, ◌>>=◌, ◌>>◌}
use gringotts.Cosmos.{
  Addr, Env, Ballot, Proposal, yes_vote, no_vote, open_status, never, absolute_percentage,
  absolute_percentage_of, time,
}
use gringotts.Storage.{insert}
use gringotts.Storage.Keys.{nat_key, ballot_key}
use gringotts.Msg.{
  QueryMsg, QueryAnswer, list_proposals, list_votes, list_admins, list_ops, info, config,
  total_vested, proposals_answer, votes_answer, admins_answer, ops_answer, info_answer,
  config_answer, total_vested_answer,
}
use gringotts.State.{Store, load}
use gringotts.Contract.Query.{query}
use gringotts.UnitTests.Answers.{answer_eq}
use gringotts.UnitTests.Mock.{Mock, unwrap, assert_eq}
use gringotts.UnitTests.Setup.{
  owner, voter1, voter2, voter3, voter4, voter5, voter6, unlock_addr1, reward_addr1, set_up_by,
}

-- `PROPOSALS.save(storage, id, &proposal).unwrap()`
abbrev pub save_proposal : ℕ → Proposal → Exec Store ⊤
save_proposal id proposal = save (λ s. record s { proposals = insert id proposal s.proposals })

-- `BALLOTS.save(storage, (id, &addr), &ballot).unwrap()`
abbrev pub save_ballot : ℕ → Addr → Ballot → Exec Store ⊤
save_ballot id addr ballot = save (λ s. record s { ballots = insert (id, addr) ballot s.ballots })

-- `.first().unwrap()`
abbrev pub first : {A : Type 0} → List A → Result A
first [] = panic
first (a ∷ rest) = ok a

module _ (mock : Mock) where
  open mock use {host, env, from_binary}

  -- `from_binary(&query(deps.as_ref(), env, msg).unwrap()).unwrap()`, and the assertion on the result.
  abbrev pub assert_answers : Env → QueryMsg → QueryAnswer → Exec Store ⊤
  assert_answers at msg answer = do
    bin ← unwrap (reads (query host at msg))
    res ← unwrap (lift (from_binary bin))
    assert_eq res answer

  -- The proposal that the next test stores.
  abbrev pub stored_proposal : Proposal
  stored_proposal = record {
    title = "title";
    description = "description";
    start_height = 1;
    expires = never;
    msgs = [];
    status = open_status;
    votes = host.votes_yes 1;
    threshold = absolute_percentage (host.percent 75);
    total_weight = 4;
    proposer = "proposer";
    deposit = none;
  }

  abbrev pub test_query_proposals : Exec Store ⊤
  test_query_proposals = do
    save_proposal 1 stored_proposal
    assert_answers env list_proposals (
        proposals_answer (
          record {
            id = 1;
            title = "title";
            description = "description";
            expires = never;
            msgs = [];
            status = open_status;
            threshold = absolute_percentage_of (host.percent 75) 4;
            proposer = "proposer";
            deposit = none;
          }
          ∷ []))

  abbrev pub test_query_votes : Exec Store ⊤
  test_query_votes = do
    save_ballot 1 "admin" (record { weight = 1; vote = yes_vote })
    save_ballot 2 "admin" (record { weight = 1; vote = no_vote })
    assert_answers env (list_votes 1) (
        votes_answer
          (record { proposal_id = 1; voter = "admin"; vote = yes_vote; weight = 1 } ∷ []))

  abbrev pub test_query_admins : Exec Store ⊤
  test_query_admins = do
    set_up_by mock owner
    assert_answers env list_admins
        (admins_answer (record { admins = voter1 ∷ voter2 ∷ voter3 ∷ voter4 ∷ [] }))

  abbrev pub test_query_ops : Exec Store ⊤
  test_query_ops = do
    set_up_by mock owner
    assert_answers env list_ops (ops_answer (record { ops = voter5 ∷ voter6 ∷ [] }))

  -- The two lists are read before the query here, which reads only.
  abbrev pub test_query_info : Exec Store ⊤
  test_query_info = do
    set_up_by mock owner
    vesting_timestamps ← unwrap (reads (load (λ s. s.vesting_timestamps)))
    vesting_amounts ← unwrap (reads (load (λ s. s.vesting_amounts)))
    assert_answers env info (
        info_answer (record {
          denom = "usei";
          vesting_timestamps = vesting_timestamps;
          vesting_amounts = vesting_amounts;
          unlock_distribution_address = unlock_addr1;
          staking_reward_address = reward_addr1;
          withdrawn_staking_rewards = 0;
          withdrawn_locked = 0;
          withdrawn_unlocked = 0;
        }))

  abbrev pub test_query_config : Exec Store ⊤
  test_query_config = do
    set_up_by mock owner
    assert_answers env config (
        config_answer (record {
          max_voting_period = time 3600;
          admin_voting_threshold = absolute_percentage (host.percent 75);
        }))

  abbrev pub test_query_total_vested_amount : Exec Store ⊤
  test_query_total_vested_amount = do
    set_up_by mock owner
    vesting_timestamps ← unwrap (reads (load (λ s. s.vesting_timestamps)))
    now ← lift (first vesting_timestamps)
    let at : Env = record env { block = record env.block { time = now } }
    assert_answers at total_vested (total_vested_answer (record { vested_amount = 12000000 }))
