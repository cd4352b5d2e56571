-- ===== src/UnitTests/Internal.antt =====
-- The tests of contract.rs on the calls that only the contract makes, and on `UpdateOp`.
use gringotts.Base.{ℕ, ⊤, [], List, length, true, false}
use gringotts.Error.{ok, unauthorized}
use gringotts.Exec.{Exec, reads, ◌>>=◌, ◌>>◌}
use gringotts.Cosmos.{Addr, Timestamp, Response}
use gringotts.Msg.{
  EmptyStruct, ExecuteMsg, update_op, internal_update_admin, internal_withdraw_locked,
}
use gringotts.Storage.{may_load}
use gringotts.Storage.Keys.{string_key}
use gringotts.State.{Store, load, get_number_of_admins, get_number_of_ops}
use gringotts.Contract.Execute.{execute}
use gringotts.UnitTests.Equality.{nat_eq, list_eq, error_eq}
use gringotts.UnitTests.Mock.{Mock, mock_info, unwrap, unwrap_err, assert_eq}
use gringotts.UnitTests.Setup.{owner, voter1, voter5, set_up_by}

-- `ADMINS.load(storage, &addr)`
abbrev load_admin : Addr → Exec Store EmptyStruct
load_admin addr = reads (load (λ s. may_load addr s.admins))

-- `OPS.load(storage, &addr)`
abbrev load_op : Addr → Exec Store EmptyStruct
load_op addr = reads (load (λ s. may_load addr s.ops))

-- `assert_eq!(n, get_number_of_admins(storage))`
abbrev assert_admins : ℕ → Exec Store ⊤
assert_admins n = do number ← reads (λ s. ok (get_number_of_admins s)); assert_eq n number

-- `assert_eq!(n, get_number_of_ops(storage))`
abbrev assert_ops : ℕ → Exec Store ⊤
assert_ops n = do number ← reads (λ s. ok (get_number_of_ops s)); assert_eq n number

module _ (mock : Mock) where
  open mock use {host, env, querier}

  -- The setup by the owner, then the message from `sender`.
  abbrev succeeds : Addr → ExecuteMsg → Exec Store Response
  succeeds sender msg = do
    set_up_by mock owner
    unwrap (execute host querier env (mock_info sender []) msg)

  -- The same where the message is to fail with `Unauthorized`.
  abbrev is_refused : Addr → ExecuteMsg → Exec Store ⊤
  is_refused sender msg = do
    set_up_by mock owner
    refusal ← unwrap_err (execute host querier env (mock_info sender []) msg)
    assert_eq refusal unauthorized

  abbrev pub test_execute_internal_update_admin_works : Exec Store ⊤
  test_execute_internal_update_admin_works = do
    succeeds env.address (internal_update_admin "new_admin1" false)
    unwrap (load_admin "new_admin1")
    assert_admins 5

  abbrev pub test_execute_internal_update_admin_remove_works : Exec Store ⊤
  test_execute_internal_update_admin_remove_works = do
    succeeds env.address (internal_update_admin voter1 true)
    unwrap_err (load_admin voter1)
    assert_admins 3

  abbrev pub test_execute_internal_update_admin_unauthorized : Exec Store ⊤
  test_execute_internal_update_admin_unauthorized = do
    is_refused voter1 (internal_update_admin "new_admin1" false)
    unwrap_err (load_admin "new_admin1")
    assert_admins 4

  abbrev pub test_execute_update_op_works : Exec Store ⊤
  test_execute_update_op_works = do
    succeeds voter1 (update_op "new_op1" false)
    unwrap (load_op "new_op1")
    assert_ops 3

  abbrev pub test_execute_update_op_remove_works : Exec Store ⊤
  test_execute_update_op_remove_works = do
    succeeds voter1 (update_op voter5 true)
    unwrap_err (load_op voter5)
    assert_ops 1

  abbrev pub test_execute_update_op_unauthorized : Exec Store ⊤
  test_execute_update_op_unauthorized = do
    is_refused voter5 (update_op "new_op1" false)
    unwrap_err (load_op "new_op1")
    assert_ops 2

  abbrev pub test_execute_internal_withdraw_locked_works : Exec Store ⊤
  test_execute_internal_withdraw_locked_works = do
    res ← succeeds env.address (internal_withdraw_locked "destination")
    assert_eq 1 (length res.messages)
    let no_amounts : List ℕ = []
    let no_timestamps : List Timestamp = []
    vesting_amounts ← unwrap (reads (load (λ s. s.vesting_amounts)))
    assert_eq no_amounts vesting_amounts
    vesting_timestamps ← unwrap (reads (load (λ s. s.vesting_timestamps)))
    assert_eq no_timestamps vesting_timestamps
    withdrawn_locked ← unwrap (reads (load (λ s. s.withdrawn_locked)))
    assert_eq 48000000 withdrawn_locked

  abbrev pub test_execute_internal_withdraw_locked_unauthorized : Exec Store ⊤
  test_execute_internal_withdraw_locked_unauthorized = do
    is_refused voter1 (internal_withdraw_locked "destination")
    vesting_amounts ← unwrap (reads (load (λ s. s.vesting_amounts)))
    assert_eq 37 (length vesting_amounts)
    vesting_timestamps ← unwrap (reads (load (λ s. s.vesting_timestamps)))
    assert_eq 37 (length vesting_timestamps)
    withdrawn_locked ← unwrap (reads (load (λ s. s.withdrawn_locked)))
    assert_eq 0 withdrawn_locked
