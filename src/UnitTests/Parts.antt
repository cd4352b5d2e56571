-- ===== src/UnitTests/Parts.antt =====
-- The tests of permission.rs, state.rs and staking.rs.
use gringotts.Base.{ℕ, ⊤, String, [], ◌∷◌, some}
use gringotts.Error.{ok}
use gringotts.Exec.{Exec, pure, reads, lift, save, ◌>>=◌, ◌>>◌}
use gringotts.Cosmos.{Addr, Env, FullDelegation}
use gringotts.Msg.{empty_struct}
use gringotts.Storage.{insert}
use gringotts.Storage.Keys.{string_key}
use gringotts.State.{Store, get_number_of_admins, get_number_of_ops}
use gringotts.Permission.{authorize_op, authorize_admin, authorize_self_call}
use gringotts.Staking.{get_delegation_rewards}
use gringotts.UnitTests.Equality.{nat_eq}
use gringotts.UnitTests.Mock.{Mock, mock_info, unwrap, unwrap_err, assert_eq, coin_new}

abbrev good_op : Addr
good_op = "good_op"

abbrev bad_op : Addr
bad_op = "bad_op"

abbrev good_admin : Addr
good_admin = "good_admin"

abbrev bad_admin : Addr
bad_admin = "bad_admin"

-- `ADMINS.save(storage, &addr, &EmptyStruct {}).unwrap()`
abbrev save_admin : Addr → Exec Store ⊤
save_admin addr = save (λ s. record s { admins = insert addr empty_struct s.admins })

-- `OPS.save(storage, &addr, &EmptyStruct {}).unwrap()`
abbrev save_op : Addr → Exec Store ⊤
save_op addr = save (λ s. record s { ops = insert addr empty_struct s.ops })

-- `assert_eq!(n, number(storage))`
abbrev assert_number : ℕ → (Store → ℕ) → Exec Store ⊤
assert_number n number = do found ← reads (λ s. ok (number s)); assert_eq n found

abbrev pub test_authorize_op : Exec Store ⊤
test_authorize_op = do
  save_op good_op
  unwrap (reads (λ s. authorize_op s good_op))
  unwrap_err (reads (λ s. authorize_op s bad_op))
  pure tt

abbrev pub test_authorize_admin : Exec Store ⊤
test_authorize_admin = do
  save_admin good_admin
  unwrap (reads (λ s. authorize_admin s good_admin))
  unwrap_err (reads (λ s. authorize_admin s bad_admin))
  pure tt

abbrev pub test_get_number_of_admins : Exec Store ⊤
test_get_number_of_admins = do
  assert_number 0 get_number_of_admins
  save_admin "admin"
  assert_number 1 get_number_of_admins
  save_admin "admin2"
  assert_number 2 get_number_of_admins

abbrev pub test_get_number_of_ops : Exec Store ⊤
test_get_number_of_ops = do
  assert_number 0 get_number_of_ops
  save_op "op"
  assert_number 1 get_number_of_ops
  save_op "op2"
  assert_number 2 get_number_of_ops

-- `VALIDATOR` and `DELEGATOR`
abbrev validator : String
validator = "val"

abbrev delegator : Addr
delegator = "del"

module _ (mock : Mock) where
  open mock use {env, querier, update_staking}

  abbrev pub test_authorize_self_call : Exec Store ⊤
  test_authorize_self_call = do
    let info1 = mock_info env.address []
    let info2 = mock_info "someone" []
    unwrap (lift (authorize_self_call env info1))
    unwrap_err (lift (authorize_self_call env info2))
    pure tt

  -- `env` with the delegator as the contract.
  abbrev delegator_env : Env
  delegator_env = record env { address = delegator }

  abbrev pub test_get_delegation_rewards_empty : Exec Store ⊤
  test_get_delegation_rewards_empty = do
    save (λ s. record s { denom = some "usei" })
    result ← unwrap (reads (λ s. get_delegation_rewards querier s delegator_env validator))
    assert_eq 0 result

  abbrev pub test_get_delegation_rewards : Exec Store ⊤
  test_get_delegation_rewards = do
    let delegation : FullDelegation = record {
      validator = validator;
      amount = coin_new 1000000 "usei";
      accumulated_rewards = coin_new 10 "usei" ∷ coin_new 20 "usei" ∷ [];
    }
    let staked = update_staking "usei" (validator ∷ []) ((delegator, delegation) ∷ []) querier
    save (λ s. record s { denom = some "usei" })
    result ← unwrap (reads (λ s. get_delegation_rewards staked s delegator_env validator))
    assert_eq 30 result
