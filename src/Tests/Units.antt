-- ===== src/Tests/Units.antt =====
-- Runs of the unit tests of vesting.rs, data_structure.rs, permission.rs, state.rs and staking.rs, and of
-- that of `instantiate`.
use gringotts.Base.{◌≡◌, refl}
use gringotts.Word.{add64, add128, sub128}
use gringotts.Error.{ok}
use gringotts.Vesting.{collect_vested, distribute_vested}
use gringotts.Tranche.{validate}
use gringotts.Storage.{may_load, insert, remove}
use gringotts.State.{get_number_of_admins, get_number_of_ops}
use gringotts.Permission.{authorize_op, authorize_admin, authorize_self_call}
use gringotts.Staking.{get_delegation_rewards}
use gringotts.Contract.Instantiate.{instantiate}
use gringotts.Tests.Mocked.{mock, outcome}
use gringotts.UnitTests.Tranche
use gringotts.UnitTests.Parts
use gringotts.UnitTests.Setup
use gringotts.UnitTests.Vesting.{
  test_nothing_to_vest, test_vest_single_full, test_vest_single_more, test_vest_single_partial,
  test_not_vest_single, test_vest_multiple, test_vest_multiple_all, test_vest_multiple_none,
  test_distribute_vested_zero_amount, test_distribute_vested,
}

methods : Unit {0}
unfolding collect_vested distribute_vested add64 add128 sub128 validate may_load insert remove
    get_number_of_admins get_number_of_ops authorize_op authorize_admin authorize_self_call
    get_delegation_rewards instantiate
methods = tt

vesting_runs :
    (outcome (test_nothing_to_vest mock) ≡ ok tt)
    × (outcome (test_vest_single_full mock) ≡ ok tt)
    × (outcome (test_vest_single_more mock) ≡ ok tt)
    × (outcome (test_vest_single_partial mock) ≡ ok tt)
    × (outcome (test_not_vest_single mock) ≡ ok tt)
    × (outcome (test_vest_multiple mock) ≡ ok tt)
    × (outcome (test_vest_multiple_all mock) ≡ ok tt)
    × (outcome (test_vest_multiple_none mock) ≡ ok tt)
    × (outcome test_distribute_vested_zero_amount ≡ ok tt)
    × (outcome test_distribute_vested ≡ ok tt)
unfolding methods
vesting_runs = (refl, refl, refl, refl, refl, refl, refl, refl, refl, refl)

tranche_runs :
    (outcome (Tranche.test_validate_success mock) ≡ ok tt)
    × (outcome (Tranche.test_validate_mismatched_amount_timestamp_lengths mock) ≡ ok tt)
    × (outcome (Tranche.test_validate_empty_amounts_and_timestamps mock) ≡ ok tt)
    × (outcome (Tranche.test_validate_zero_vesting_amount mock) ≡ ok tt)
    × (outcome (Tranche.test_validate_insufficient_deposit mock) ≡ ok tt)
    × (outcome (Tranche.test_validate_non_monotonic_vesting_timestamps mock) ≡ ok tt)
    × (outcome (Tranche.test_validate_timestamps_too_early mock) ≡ ok tt)
    × (outcome (Tranche.test_validate_timestamps_too_late mock) ≡ ok tt)
unfolding methods
tranche_runs = (refl, refl, refl, refl, refl, refl, refl, refl)

parts_runs :
    (outcome Parts.test_authorize_op ≡ ok tt)
    × (outcome Parts.test_authorize_admin ≡ ok tt)
    × (outcome (Parts.test_authorize_self_call mock) ≡ ok tt)
    × (outcome Parts.test_get_number_of_admins ≡ ok tt)
    × (outcome Parts.test_get_number_of_ops ≡ ok tt)
    × (outcome (Parts.test_get_delegation_rewards_empty mock) ≡ ok tt)
    × (outcome (Parts.test_get_delegation_rewards mock) ≡ ok tt)
unfolding methods
parts_runs = (refl, refl, refl, refl, refl, refl, refl)

setup_runs : outcome (Setup.test_instantiate_works mock) ≡ ok tt
unfolding methods
setup_runs = refl
