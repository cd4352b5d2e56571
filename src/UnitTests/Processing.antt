-- ===== src/UnitTests/Processing.antt =====
-- The tests of contract.rs on votes and on the processing of a proposal.
use gringotts.Base.{⊤, [], length, false}
use gringotts.Error.{expired, wrong_execute_status}
use gringotts.Exec.{Exec, pure, ◌>>=◌, ◌>>◌}
use gringotts.Cosmos.{Addr, Env, Response, yes_option}
use gringotts.Msg.{ExecuteMsg, vote_proposal, process_proposal}
use gringotts.State.{Store}
use gringotts.Contract.Execute.{execute}
use gringotts.UnitTests.Equality.{nat_eq, error_eq}
use gringotts.UnitTests.Mock.{Mock, mock_info, unwrap, unwrap_err, assert_eq}
use gringotts.UnitTests.Setup.{owner, voter1, voter2, voter3, set_up_by}

-- The proposals of the tests.
abbrev update_admin : ExecuteMsg
update_admin = ExecuteMsg.propose_update_admin "new_admin1" false

abbrev gov_vote : ExecuteMsg
gov_vote = ExecuteMsg.propose_gov_vote 1 yes_option

module _ (mock : Mock) where
  open mock use {host, env, querier, plus_seconds}

  -- `execute(deps.as_mut(), mock_env(), mock_info(sender, &[]), msg)`
  abbrev sends : Addr → ExecuteMsg → Exec Store Response
  sends sender msg = execute host querier env (mock_info sender []) msg

  -- The setup, the proposal of `voter1` and the vote of `voter2`.
  abbrev two_votes : ExecuteMsg → Exec Store Response
  two_votes proposal = do
    set_up_by mock owner
    unwrap (sends voter1 proposal)
    unwrap (sends voter2 (vote_proposal 1))

  -- The vote of `voter3` too.
  abbrev three_votes : ExecuteMsg → Exec Store Response
  three_votes proposal = do two_votes proposal; unwrap (sends voter3 (vote_proposal 1))

  abbrev pub test_vote_works : Exec Store ⊤
  test_vote_works = do three_votes update_admin; pure tt

  abbrev pub test_vote_expired : Exec Store ⊤
  test_vote_expired = do
    two_votes update_admin
    let later : Env = record env {
      block = record env.block { time = plus_seconds env.block.time 3601 };
    }
    refusal ← unwrap_err (execute host querier later (mock_info voter3 []) (vote_proposal 1))
    assert_eq refusal expired

  abbrev pub test_process_update_admin_works : Exec Store ⊤
  test_process_update_admin_works = do
    three_votes update_admin
    res ← unwrap (sends voter3 (process_proposal 1))
    assert_eq 1 (length res.messages)

  abbrev pub test_process_proposal_premature : Exec Store ⊤
  test_process_proposal_premature = do
    two_votes update_admin
    refusal ← unwrap_err (sends voter3 (process_proposal 1))
    assert_eq refusal wrong_execute_status

  abbrev pub test_process_update_admin_double_process : Exec Store ⊤
  test_process_update_admin_double_process = do
    three_votes update_admin
    unwrap (sends voter3 (process_proposal 1))
    refusal ← unwrap_err (sends voter3 (process_proposal 1))
    assert_eq refusal wrong_execute_status

  abbrev pub test_process_gov_vote_works : Exec Store ⊤
  test_process_gov_vote_works = do
    three_votes gov_vote
    res ← unwrap (sends voter3 (process_proposal 1))
    assert_eq 1 (length res.messages)
