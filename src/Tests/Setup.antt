-- ===== src/Tests/Setup.antt =====
-- The instantiation, and the answers after it, at a concrete contract.
use gringotts.Base.{
  true, List, false, ◌+◌, ◌≤◌, ◌≡◌, ◌≢◌, ◌↔◌, refl, [], ◌∷◌, some, sum, length, get_or, arith,
}
use gringotts.Word.{add64, add128, sub128}
use gringotts.Tranche.{validate}
use gringotts.Tranche.Spec.{IsValid, deposited}
use gringotts.Error.{ok, panic, IsOk}
use gringotts.Vesting.{collect_vested, distribute_vested}
use gringotts.Msg.{ExecuteMsg, ShowInfoResponse, ShowTotalVestedResponse}
use gringotts.Storage.{may_load, insert}
use gringotts.Storage.Keys.{string_key}
use gringotts.Chain.{Call, run}
use gringotts.Cosmos.{absolute_percentage}
use gringotts.Contract.Instantiate.{instantiate}
use gringotts.Contract.Execute.{execute}
use gringotts.Contract.Query.{query_info, query_config, query_total_vested}
use gringotts.Contract.Withdraw.{execute_initiate_withdraw_unlocked}
use gringotts.Accounting.Panics.{IsAnswering}
use gringotts.Accounting.Returns.{execute-ne-panic}
use gringotts.Accounting.Shown.{query_info-run}
use gringotts.Accounting.Matured.{withdraw_unlocked-matured}
use gringotts.Setup.{instantiate-IsOk, query-instantiate}
use gringotts.Setup.Members.{is_stored}
use gringotts.Tests.Fixtures.{host, host-IsLawful, env_at, sent_by, setup, blank}
use gringotts.Tests.Accounting.{deployer, deployed, instantiate-setup, call, calls}
use gringotts.Tests.Money.{holding, holding-IsBalanced, rewarding}

rewarding-IsAnswering : IsAnswering rewarding
rewarding-IsAnswering = record {
  balance_lem = λ a denom e. cc e;
  delegations_lem = λ a e. cc e;
  delegation_lem = λ a validator e. cc e;
  custom_lem = λ q e. cc e;
}

-- Three tokens are accrued with each of two validators, and the operator asks for them.
execute-ne-panic_example :
    (execute host rewarding
      (env_at 3000000000)
      (sent_by "voter5")
      ExecuteMsg.initiate_withdraw_reward
      holding).0
    ≢ panic
execute-ne-panic_example =
    execute-ne-panic (env_at 3000000000) (sent_by "voter5") holding host rewarding
      rewarding-IsAnswering holding-IsBalanced ExecuteMsg.initiate_withdraw_reward tt

instantiate-IsOk_example : IsOk (instantiate host (env_at 1000000000) deployer setup blank).0 ↔ (
    (setup.admins ≢ [])
    × (setup.ops ≢ [])
    × (setup.admin_voting_threshold_percentage ≤ 100)
    × IsValid setup.tranche 1000000000 deployer.funds)
unfolding deposited
instantiate-IsOk_example =
    instantiate-IsOk host (env_at 1000000000) deployer setup blank host-IsLawful (omega arith)
      (omega arith) (omega arith)

query-instantiate_example :
    (query_info deployed
      ≡ ok (record {
        denom = "usei";
        vesting_timestamps = 2000000000 ∷ 3000000000 ∷ 4000000000 ∷ [];
        vesting_amounts = 10 ∷ 9 ∷ 11 ∷ [];
        unlock_distribution_address = "unlock1";
        staking_reward_address = "reward1";
        withdrawn_staking_rewards = 0;
        withdrawn_unlocked = 0;
        withdrawn_locked = 0;
      }))
    × (query_config deployed
        ≡ ok (record {
          max_voting_period = setup.max_voting_period;
          admin_voting_threshold = absolute_percentage 750000000000000000;
        }))
    × (is_stored "voter2" deployed.admins ≡ true)
    × (is_stored "voter2" deployed.ops ≡ false)
query-instantiate_example =
    query-instantiate host (env_at 1000000000) deployer setup blank instantiate-setup refl refl
      "voter2"

query_info-run_example :
    (shown : ShowInfoResponse) × (query_info (run host calls deployed) ≡ ok shown)
    × (length shown.vesting_timestamps ≡ length shown.vesting_amounts)
    × (shown.withdrawn_unlocked + shown.withdrawn_locked + sum shown.vesting_amounts
        ≡ sum setup.tranche.vesting_amounts)
query_info-run_example =
    query_info-run host (env_at 1000000000) deployer setup blank instantiate-setup (omega arith)
      calls

abbrev one_call : List Call
one_call = call 3000000000 (sent_by "voter5") (ExecuteMsg.initiate_withdraw_unlocked 18) ∷ []

-- Of 30 tokens 18 are withdrawn at the third second, and at the fourth the other 12.
withdraw_unlocked-matured_example :
    let s = run host one_call deployed in
    (shown : ShowTotalVestedResponse) × (query_total_vested (env_at 4000000000) s ≡ ok shown)
    × (let (result, s') =
          execute_initiate_withdraw_unlocked
            (env_at 4000000000)
            (sent_by "voter5")
            shown.vested_amount
            s in
        IsOk result
        × (s'.vesting_amounts ≡ some [])
        × (get_or s'.withdrawn_unlocked 0 + get_or s'.withdrawn_locked 0
            ≡ sum setup.tranche.vesting_amounts))
unfolding may_load run instantiate validate add128 add64 insert execute
    execute_initiate_withdraw_unlocked collect_vested sub128 distribute_vested
withdraw_unlocked-matured_example =
    withdraw_unlocked-matured host (env_at 1000000000) deployer setup blank instantiate-setup
      (omega arith) one_call (env_at 4000000000) (sent_by "voter5")
      (omega arith, (omega arith, (omega arith, tt))) refl
