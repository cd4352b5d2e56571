-- ===== src/Tests/Resolved.antt =====
-- The resolutions of four admins at a concrete contract.
use gringotts.Base.{◌≡◌, refl, true, none, some, [], ◌∷◌, arith}
use gringotts.Word.{add64}
use gringotts.Error.{Result, ok}
use gringotts.Cosmos.{
  Binary, Response, time, WasmMsg, wasm, absolute_percentage, add_message, new_response, bank, send,
}
use gringotts.Msg.{ExecuteMsg, empty_struct}
use gringotts.Storage.{may_load, insert}
use gringotts.Storage.Keys.{string_key, nat_key, ballot_key}
use gringotts.State.{Store, get_number_of_admins}
use gringotts.Chain.{run}
use gringotts.Contract.Propose.{
  execute_propose, execute_propose_update_admin, execute_propose_emergency_withdraw,
}
use gringotts.Contract.Vote.{execute_process_proposal}
use gringotts.Contract.Execute.{execute}
use gringotts.Governance.Carried.{votes_by}
use gringotts.Governance.Resolved.{from_self, withdraw_locked-votes_by, update_admin-votes_by}
use gringotts.Tests.Fixtures.{host, host-IsLawful, host-IsTallying, querier, sent_by, usei}
use gringotts.Tests.Money.{holding, holding-IsBalanced}
use gringotts.Tests.Governance.{now, others, different}

abbrev governed : Store
governed = record holding {
  admins =
      ("voter1", empty_struct)
      ∷ ("voter2", empty_struct)
      ∷ ("voter3", empty_struct)
      ∷ ("voter4", empty_struct)
      ∷ [];
  max_voting_period = some (time 3600);
  admin_voting_threshold = some (absolute_percentage 750000000000000000);
}

abbrev withdrawal : Result Response × Store
withdrawal = execute_propose_emergency_withdraw host now (sent_by "voter1") "safe" governed

withdraw_locked-votes_by_example :
    let (processed, u) =
      execute_process_proposal host now
        (sent_by "voter4")
        1
        (run host (votes_by querier now 1 others) withdrawal.1) in
    ((binary : Binary) × (r : Response) × (host.message_binary
          (ExecuteMsg.internal_withdraw_locked "safe")
        ≡ ok binary)
      × (processed ≡ ok r)
      × (r.messages ≡ wasm (WasmMsg.execute "contract" binary []) ∷ []))
    × (execute host querier now (from_self now) (ExecuteMsg.internal_withdraw_locked "safe") u ≡ (
      ok (add_message new_response (bank (send "safe" (usei 30 ∷ [])))),
      record u {
        vesting_timestamps = some [];
        vesting_amounts = some [];
        withdrawn_locked = some 30;
      },
    ))
unfolding execute_propose_emergency_withdraw execute_propose may_load insert get_number_of_admins
    add64
withdraw_locked-votes_by_example =
    withdraw_locked-votes_by host host-IsLawful host-IsTallying querier now 1 750000000000000000
      (sent_by "voter1") governed refl refl refl others ((different, tt), (tt, tt)) (omega arith)
      (omega arith) (sent_by "voter4") (λ e. cc) "safe" holding-IsBalanced refl refl
      (((λ e. cc), refl), (((λ e. cc), refl), tt))

abbrev removal : Result Response × Store
removal = execute_propose_update_admin host now (sent_by "voter1") "voter3" true governed

update_admin-votes_by_example :
    let (processed, u) =
      execute_process_proposal host now
        (sent_by "voter4")
        1
        (run host (votes_by querier now 1 others) removal.1) in
    let m = ExecuteMsg.internal_update_admin "voter3" true in
    ((binary : Binary) × (r : Response) × (host.message_binary m ≡ ok binary)
      × (processed ≡ ok r)
      × (r.messages ≡ wasm (WasmMsg.execute "contract" binary []) ∷ []))
    × ((execute host querier now (from_self now) m u).0 ≡ ok new_response)
    × (may_load "voter3" (execute host querier now (from_self now) m u).1.admins ≡ none)
unfolding execute_propose_update_admin execute_propose may_load insert get_number_of_admins add64
update_admin-votes_by_example =
    update_admin-votes_by host host-IsLawful host-IsTallying querier now 1 750000000000000000
      (sent_by "voter1") governed refl refl refl others ((different, tt), (tt, tt)) (omega arith)
      (omega arith) (sent_by "voter4") (λ e. cc) "voter3" true refl refl
      (((λ e. cc), refl), (((λ e. cc), refl), tt)) "voter3"
