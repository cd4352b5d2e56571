-- ===== src/Tests/Migration.antt =====
-- Migrations, with versions as numbers.
use gringotts.Base.{ℕ, ◌≡◌, ◌⊎◌, Bool, leb, String, str_eq, if◌then◌else◌, some}
use gringotts.Error.{Result, ok}
use gringotts.Cosmos.{new_response}
use gringotts.State.{Store}
use gringotts.Access.{Refuses}
use gringotts.Contract.Instantiate.{contract_name}
use gringotts.Contract.Migrate.{migrate}
use gringotts.Migration.{upgraded, IsUpgrade, migrate_outcome}
use gringotts.Tests.Fixtures.{blank, env_at}

abbrev parse : String → Result ℕ
parse version = if str_eq version "0.1.9" then ok 9 else ok 8

abbrev at_least : ℕ → ℕ → Bool
at_least a b = leb b a

abbrev older : Store
older = record blank {
  contract_info = some (record { contract = contract_name; version = "0.1.8" });
}

migrate_outcome_example :
    (IsUpgrade parse at_least older
      × (migrate parse at_least (env_at 0) older ≡ (ok new_response, upgraded older)))
    ⊎ ((¬ IsUpgrade parse at_least older) × Refuses older (migrate parse at_least (env_at 0) older))
migrate_outcome_example = migrate_outcome parse at_least (env_at 0) older
