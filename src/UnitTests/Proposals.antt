-- ===== src/UnitTests/Proposals.antt =====
-- The tests of contract.rs on proposals: who may propose, and what the calls that proposals carry do.
use gringotts.Base.{⊤, [], to_string, false}
use gringotts.Error.{unauthorized}
use gringotts.Exec.{Exec, pure, reads, ◌>>=◌, ◌>>◌}
use gringotts.Cosmos.{Addr, Response, new_response, add_attribute, yes_option}
use gringotts.Msg.{ExecuteMsg}
use gringotts.Storage.{may_load}
use gringotts.Storage.Keys.{string_key}
use gringotts.State.{Store, load}
use gringotts.Contract.Execute.{execute}
use gringotts.UnitTests.Equality.{nat_eq, string_eq, error_eq, response_eq}
use gringotts.UnitTests.Mock.{Mock, mock_info, unwrap, unwrap_err, assert_eq}
use gringotts.UnitTests.Setup.{owner, voter1, set_up_by}

-- The response to the first proposal, as the tests expect it.
abbrev proposed : Response
proposed =
    add_attribute
      (add_attribute (add_attribute (add_attribute new_response "action" "propose") "sender" voter1)
        "proposal_id" (to_string 1))
      "status" "Open"

module _ (mock : Mock) where
  open mock use {host, env, querier}

  -- After a setup by the owner, `voter1` makes the proposal, and the response is as expected.
  abbrev assert_proposes : ExecuteMsg → Exec Store ⊤
  assert_proposes proposal = do
    set_up_by mock owner
    res ← unwrap (execute host querier env (mock_info voter1 []) proposal)
    assert_eq res proposed

  -- The owner, who is no admin, may not make the proposal.
  abbrev assert_unauthorized : ExecuteMsg → Exec Store ⊤
  assert_unauthorized proposal = do
    set_up_by mock owner
    refusal ← unwrap_err (execute host querier env (mock_info owner []) proposal)
    assert_eq refusal unauthorized

  -- The contract calls itself: `MOCK_CONTRACT_ADDR` is the address of `mock_env()`.
  abbrev calls_itself : ExecuteMsg → Exec Store Response
  calls_itself internal_update =
      unwrap (execute host querier env (mock_info env.address []) internal_update)

  abbrev pub test_propose_update_admin_works : Exec Store ⊤
  test_propose_update_admin_works = do
    let new_admin : Addr = "new_admin1"
    assert_proposes (ExecuteMsg.propose_update_admin new_admin false)
    calls_itself (ExecuteMsg.internal_update_admin new_admin false)
    -- `Ok(_) => Ok(())`, and `assert_eq!(result, Ok(()))`
    unwrap (reads (load (λ s. may_load new_admin s.admins)))
    pure tt

  abbrev pub test_propose_update_admin_unauthorized : Exec Store ⊤
  test_propose_update_admin_unauthorized =
      assert_unauthorized (ExecuteMsg.propose_update_admin "new_admin1" false)

  abbrev pub test_propose_update_unlocked_distribution_address_works : Exec Store ⊤
  test_propose_update_unlocked_distribution_address_works = do
    let new_addr : Addr = "new_unlock1"
    assert_proposes (ExecuteMsg.propose_update_unlocked_distribution_address new_addr)
    calls_itself (ExecuteMsg.internal_update_unlocked_distribution_address new_addr)
    stored ← unwrap (reads (load (λ s. s.unlock_distribution_address)))
    assert_eq stored new_addr

  -- The name is spelled as in the source.
  abbrev pub test_propose_update_stakign_reward_distribution_address_works : Exec Store ⊤
  test_propose_update_stakign_reward_distribution_address_works = do
    let new_addr : Addr = "new_staking1"
    assert_proposes (ExecuteMsg.propose_update_staking_reward_distribution_address new_addr)
    calls_itself (ExecuteMsg.internal_update_staking_reward_distribution_address new_addr)
    stored ← unwrap (reads (load (λ s. s.staking_reward_address)))
    assert_eq stored new_addr

  abbrev pub test_propose_emergency_withdraw_works : Exec Store ⊤
  test_propose_emergency_withdraw_works =
      assert_proposes (ExecuteMsg.propose_emergency_withdraw "destination")

  abbrev pub test_propose_emergency_withdraw_unauthorized : Exec Store ⊤
  test_propose_emergency_withdraw_unauthorized =
      assert_unauthorized (ExecuteMsg.propose_emergency_withdraw "destination")

  abbrev pub test_propose_gov_vote_works : Exec Store ⊤
  test_propose_gov_vote_works = assert_proposes (ExecuteMsg.propose_gov_vote 1 yes_option)
