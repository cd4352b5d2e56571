-- ===== src/Accounting/Shown.antt =====
-- `ShowInfo` shows accounts that balance.
use gringotts.Base.{◌+◌, ◌<◌, ◌≡◌, refl, List, [], ◌∷◌, sum, length, arith}
use gringotts.Word.{u128_mod}
use gringotts.Error.{ok}
use gringotts.Cosmos.{Env, MessageInfo, Response}
use gringotts.Host.{Host}
use gringotts.Msg.{InstantiateMsg, ShowInfoResponse}
use gringotts.State.{Store}
use gringotts.Chain.{Call, run}
use gringotts.Vesting.Schedule.{Schedule, timestamps, amounts}
use gringotts.Contract.Instantiate.{instantiate}
use gringotts.Contract.Query.{query_info}
use gringotts.Accounting.Sound.{IsBalanced}
use gringotts.Accounting.Conservation.{conservation}

length-columns : (p : Schedule) → length (timestamps p) ≡ length (amounts p)
length-columns [] = refl
length-columns (e ∷ p) = omega (arith, length-columns p)

query_info_lem :
    (s : Store) (v : IsBalanced s)
    → query_info s
      ≡ ok (record {
        denom = v.denom;
        vesting_timestamps = timestamps v.schedule;
        vesting_amounts = amounts v.schedule;
        unlock_distribution_address = v.unlock_address;
        staking_reward_address = v.reward_address;
        withdrawn_staking_rewards = v.rewards;
        withdrawn_unlocked = v.unlocked;
        withdrawn_locked = v.locked;
      })
unfolding query_info
query_info_lem s v = ground (
  arith, v.has_denom, v.has_timestamps, v.has_amounts, v.has_unlock_address, v.has_reward_address,
  v.has_rewards, v.has_unlocked, v.has_locked,
)

-- From a successful instantiation on whose amounts sum to a u128, after any calls, `query_info` answers,
-- with as many timestamps as amounts, and with amounts to vest that are with those withdrawn unlocked and
-- locked the sum of the amounts of the tranche.
pub query_info-run :
    (h : Host) (env : Env) (info : MessageInfo) (msg : InstantiateMsg) (storage : Store)
    {r : Response}
    → (instantiate h env info msg storage).0 ≡ ok r
    → sum msg.tranche.vesting_amounts < u128_mod
    → (calls : List Call)
    → (shown : ShowInfoResponse) × (query_info (run h calls (instantiate h env info msg storage).1)
        ≡ ok shown)
      × (length shown.vesting_timestamps ≡ length shown.vesting_amounts)
      × (shown.withdrawn_unlocked + shown.withdrawn_locked + sum shown.vesting_amounts
          ≡ sum msg.tranche.vesting_amounts)
query_info-run h env info msg storage e fits calls =
    let s = run h calls (instantiate h env info msg storage).1 in
    let (v, total) = conservation h env info msg storage e fits calls in
    let balance = v.balance in
    (_, query_info_lem s v, length-columns v.schedule, ground (arith, total, v.has_total, balance))
