-- ===== src/Tests/Roles.antt =====
-- The members and the configuration at a concrete contract.
use gringotts.Base.{◌≡◌, ◌≢◌, ◌⊎◌, refl, true, false, none, String, List, [], ◌∷◌, length, arith}
use gringotts.Word.{add64, add128}
use gringotts.Error.{ok}
use gringotts.Cosmos.{Addr, new_response}
use gringotts.Msg.{ExecuteMsg, AdminListResponse, OpListResponse}
use gringotts.Storage.{may_load, insert}
use gringotts.Storage.Keys.{string_key}
use gringotts.State.{get_number_of_admins, get_number_of_ops}
use gringotts.Tranche.{validate}
use gringotts.Chain.{run}
use gringotts.Contract.Instantiate.{instantiate}
use gringotts.Contract.Propose.{execute_update_op}
use gringotts.Contract.Query.{query_admins, query_ops}
use gringotts.Contract.Execute.{execute}
use gringotts.Setup.Members.{contains, is_stored}
use gringotts.Setup.Reordered.{instantiate-reordered}
use gringotts.Roles.Frame.{fixed_cells, decided}
use gringotts.Roles.Change.{execute-permitted}
use gringotts.Roles.Listed.{IsSorted, query_members-IsSorted}
use gringotts.Roles.Undone.{update_op-update_op}
use gringotts.Tests.Fixtures.{host, querier, env_at, sent_by, setup, blank}
use gringotts.Tests.Accounting.{deployer, deployed, instantiate-setup, calls}

-- In reverse, and one of them twice.
abbrev shuffled : List Addr
shuffled = "voter4" ∷ "voter1" ∷ "voter3" ∷ "voter2" ∷ "voter1" ∷ []

shuffled_same : (a : Addr) → contains a shuffled ≡ contains a setup.admins
shuffled_same a = ground arith

instantiate-reordered_example :
    instantiate host (env_at 1000000000) deployer (record setup { admins = shuffled }) blank
    ≡ instantiate host (env_at 1000000000) deployer setup blank
instantiate-reordered_example =
    instantiate-reordered host (env_at 1000000000) deployer setup blank shuffled setup.ops refl refl
      shuffled_same (λ a. refl)

execute-permitted_example :
    let s' =
      (execute host querier
        (env_at 1000000000)
        (sent_by "voter1")
        (ExecuteMsg.update_op "voter7" false)
        deployed).1 in
    (fixed_cells s' ≡ fixed_cells deployed)
    × ((decided s' ≡ decided deployed) ⊎ (◌≡◌ {A = String} "voter1" "contract"))
    × ((s'.ops ≡ deployed.ops) ⊎ (may_load "voter1" deployed.admins ≢ none))
execute-permitted_example =
    execute-permitted (env_at 1000000000) (sent_by "voter1") deployed host querier
      (ExecuteMsg.update_op "voter7" false)

query_members-IsSorted_example :
    let s = run host calls deployed in
    ((shown : AdminListResponse) × (query_admins s ≡ ok shown)
      × IsSorted shown.admins
      × (contains "voter3" shown.admins ≡ is_stored "voter3" s.admins)
      × (get_number_of_admins s ≡ length shown.admins))
    × ((shown : OpListResponse) × (query_ops s ≡ ok shown)
        × IsSorted shown.ops
        × (contains "voter3" shown.ops ≡ is_stored "voter3" s.ops)
        × (get_number_of_ops s ≡ length shown.ops))
query_members-IsSorted_example =
    query_members-IsSorted host (env_at 1000000000) deployer setup blank instantiate-setup refl refl
      calls "voter3"

update_op-update_op_example :
    let (added, s') = execute_update_op (sent_by "voter1") "voter7" false deployed in
    (added ≡ ok new_response)
    × (execute_update_op (sent_by "voter1") "voter7" true s' ≡ (ok new_response, deployed))
unfolding may_load instantiate validate add128 add64 insert
update_op-update_op_example = update_op-update_op (sent_by "voter1") deployed "voter7" refl refl
