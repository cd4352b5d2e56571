-- ===== src/Tests/Outflow.antt =====
-- What a concrete contract pays.
use gringotts.Base.{
  ◌%◌, ◌≡◌, refl, [], ◌∷◌, All, arith, inr, String, str_eq, str_eq_iff, false, ◌≢◌,
}
use gringotts.Word.{u128_mod}
use gringotts.Cosmos.{Response}
use gringotts.Tests.Fixtures.{host, host-IsLawful, env_at, sent_by, setup, blank}
use gringotts.Tests.Accounting.{deployer, deployed, calls, instantiate-setup}
use gringotts.Chain.{run, run_messages}
use gringotts.Tranche.{validate}
use gringotts.Word.{add64, add128}
use gringotts.Base.{to_string}
use gringotts.State.{get_number_of_admins}
use gringotts.Storage.{may_load, insert}
use gringotts.Contract.Instantiate.{instantiate}
use gringotts.Contract.Propose.{execute_propose_emergency_withdraw}
use gringotts.Contract.Vote.{execute_vote, execute_process_proposal}
use gringotts.Contract.Execute.{execute}
use gringotts.Tests.Governance.{agreed, now, to_safe}
use gringotts.Accounting.Payments.{paid, sent}
use gringotts.Outflow.Own.{IsOwnCall}
use gringotts.Outflow.Paid.{withdrawn}
use gringotts.Outflow.Others.{sent-run_messages}
use gringotts.Outflow.Run.{paid-run_messages, process-IsOwnCall}

-- Eighteen tokens are withdrawn, then two more are asked for, then the rest is withdrawn by the
-- contract.
paid-run_messages_example :
    paid "usei" (run_messages host calls deployed) % u128_mod
    ≡ withdrawn (run host calls deployed) % u128_mod
paid-run_messages_example =
    paid-run_messages host host-IsLawful "contract" (env_at 1000000000) deployer setup blank refl
      calls (refl, (refl, (refl, tt))) instantiate-setup (omega arith)

abbrev dispatched : Response
dispatched = record {
  messages = to_safe;
  attributes = ("action", "execute") ∷ ("sender", "voter4") ∷ ("proposal_id", "1") ∷ [];
}

process-IsOwnCall_example : All (λ c. IsOwnCall "contract" c) dispatched.messages
unfolding instantiate validate run execute execute_propose_emergency_withdraw execute_vote
    execute_process_proposal may_load insert add64 add128 get_number_of_admins to_string
process-IsOwnCall_example =
    process-IsOwnCall host host-IsLawful "contract" (env_at 1000000000) deployer setup blank refl
      agreed (refl, (refl, (refl, tt))) now (sent_by "voter4") 1 {r = dispatched} refl refl

apart : {x y : String} → str_eq x y ≡ false → x ≢ y
apart {x} {y} differ same = ground (arith, (str_eq_iff x y).1 same)

-- A thief gets nothing of what the same calls pay.
sent-run_messages_example : sent "thief" "usei" (run_messages host calls deployed) ≡ 0
sent-run_messages_example =
    sent-run_messages host host-IsLawful "contract" (env_at 1000000000) deployer setup blank refl
      calls (refl, (refl, (refl, tt))) instantiate-setup "thief" "usei" (apart refl) (apart refl)
      (inr tt, (inr tt, (inr (apart refl), tt)))
