-- ===== src/UnitTests/Migration.antt =====
-- The test of `migrate` in contract.rs.
use gringotts.Base.{⊤, Bool, String, some}
use gringotts.Error.{Result, err, panic, std, generic_err}
use gringotts.Exec.{Exec, lift, save, ◌>>=◌, ◌>>◌}
use gringotts.Cosmos.{Response, new_response}
use gringotts.State.{Store}
use gringotts.Contract.Instantiate.{contract_name}
use gringotts.Contract.Migrate.{migrate}
use gringotts.UnitTests.Equality.{string_eq, error_eq, response_eq}
use gringotts.UnitTests.Mock.{Mock, unwrap, attempt, assert_eq}
use gringotts.UnitTests.Setup.{owner, set_up_by}

-- `cw2::set_contract_version(storage, contract, version).unwrap()`
abbrev set_contract_version : String → String → Exec Store ⊤
set_contract_version contract version =
    save
      (λ s. record s { contract_info = some (record { contract = contract; version = version }) })

-- The `match` on a result: the text of a `generic_err` is compared, and anything else panics.
abbrev assert_generic : String → Result Response → Exec Store ⊤
assert_generic text (err (std e)) = assert_eq (std e) (std (generic_err text))
assert_generic text _ = lift panic

module _ (mock : Mock) {Version : Type 0} (parse : String → Result Version)
    (at_least : Version → Version → Bool) where
  open mock use {env}

  abbrev pub test_migration : Exec Store ⊤
  test_migration = do
    set_up_by mock owner
    set_contract_version "this_is_the_wrong_contract" "0.0.1"
    other_contract ← attempt (migrate parse at_least env)
    assert_generic "Can only upgrade from same type" other_contract
    set_contract_version contract_name "0.0.1"
    res ← unwrap (migrate parse at_least env)
    assert_eq res new_response
    newer ← attempt (migrate parse at_least env)
    assert_generic "Cannot upgrade from a newer version" newer
