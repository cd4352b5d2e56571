-- ===== src/Contract/Migrate.antt =====
-- `migrate`: the version check, and the schedules that version 0.1.5 repaired. The versions of the
-- semver package are a parameter: their type, `parse` and `>=`.
pub mod Schedules
use gringotts.Base.{Bool, not, String, str_eq, if◌then◌else◌, some, replicate, ⊤}
use gringotts.Error.{Result, std, generic_err}
use gringotts.Exec.{Exec, pure, lift, reads, save, check, ◌>>=◌, ◌>>◌}
use gringotts.Cosmos.{Env, Response, new_response}
use gringotts.State.{Store, load}
use gringotts.Contract.Instantiate.{contract_name, contract_version}
use Schedules.{first_schedule, second_schedule}

unfoldable pub migrate_105_handler : Env → Exec Store Response
migrate_105_handler env =
    if str_eq env.address "sei1w0fvamykx7v2e6n5x0e2s39m0jz3krejjkpmgc3tmnqdf8p9fy5syg05yv"
    then (do save (λ s. record s { vesting_timestamps = some first_schedule }); pure new_response)
    else if str_eq env.address "sei1letzrrlgdlrpxj6z279fx85hn5u34mm9nrc9hq4e6wxz5c79je2swt6x4a"
    then (do
      let amounts = replicate 60 20000000000000
      save (λ s. record s { vesting_timestamps = some second_schedule })
      save (λ s. record s { vesting_amounts = some amounts })
      pure new_response)
    else pure new_response

unfoldable pub migrate_109_handler : Env → Exec Store Response
migrate_109_handler env = pure new_response

-- The handler of the version that is migrated to.
unfoldable pub version_handler : String → Env → Exec Store Response
unfolding migrate_105_handler migrate_109_handler
version_handler version env =
    if str_eq version "0.1.5"
    then migrate_105_handler env
    else if str_eq version "0.1.9"
    then migrate_109_handler env
    else pure new_response

module _ {Version : Type 0} (parse : String → Result Version)
    (at_least : Version → Version → Bool) where
  unfoldable pub validate_migration : String → String → Exec Store ⊤
  validate_migration name version = do
    ver ← reads (load (λ s. s.contract_info))
    check (str_eq ver.contract name) (std (generic_err "Can only upgrade from same type"))
    storage_version ← lift (parse ver.version)
    new_version ← lift (parse version)
    check (not (at_least storage_version new_version))
        (std (generic_err "Cannot upgrade from a newer version"))

  unfoldable pub migrate : Env → Exec Store Response
  unfolding validate_migration version_handler
  migrate env = do
    validate_migration contract_name contract_version
    save (λ s. record s {
      contract_info = some (record { contract = contract_name; version = contract_version });
    })
    version_handler contract_version env
