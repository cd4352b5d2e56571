-- ===== src/Accounting/Reported.antt =====
-- `ShowTotalVested` reports what an operator can withdraw.
use gringotts.Base.{ℕ, ◌+◌, ◌≤◌, ◌<◌, ◌≡◌, ◌↔◌, some, arith}
use gringotts.Error.{ok, IsOk}
use gringotts.Cosmos.{Env, MessageInfo}
use gringotts.Msg.{EmptyStruct, ShowTotalVestedResponse}
use gringotts.Storage.{may_load}
use gringotts.Storage.Keys.{string_key}
use gringotts.Permission.{authorize_op}
use gringotts.State.{Store}
use gringotts.Vesting.Schedule.{vested, vested-le-sum}
use gringotts.Vesting.Refinement.{collect_vested_short}
use gringotts.Vesting.Totals.{total_vested_amount-vested, vested_mono}
use gringotts.Contract.Withdraw.{execute_initiate_withdraw_unlocked}
use gringotts.Contract.Query.{query_total_vested}
use gringotts.Accounting.Sound.{IsBalanced}
use gringotts.Accounting.Withdraw.{withdraw_unlocked_pays}

query_total_vested_lem :
    (env : Env) (s : Store) (v : IsBalanced s)
    → query_total_vested env s ≡ ok (record { vested_amount = vested env.block.time v.schedule })
unfolding query_total_vested
query_total_vested_lem env s v =
    let balance = v.balance in
    let bound = v.total_u128 in
    ground (
      arith,
      total_vested_amount-vested env.block.time v.schedule s v.has_timestamps v.has_amounts
          (omega arith),
    )

module _ (env : Env) (info : MessageInfo) (s : Store) (v : IsBalanced s) where
  reported :
      {shown : ShowTotalVestedResponse}
      → query_total_vested env s ≡ ok shown
      → shown.vested_amount ≡ vested env.block.time v.schedule
  reported {shown} e = ground (arith, query_total_vested_lem env s v)

  pub short_fails :
      (amount : ℕ)
      → vested env.block.time v.schedule < amount
      → IsOk (execute_initiate_withdraw_unlocked env info amount s).0
      → ⊥
  unfolding execute_initiate_withdraw_unlocked authorize_op
  short_fails amount short =
      let balance = v.balance in
      let bound = v.total_u128 in
      ground (
        arith,
        collect_vested_short env.block.time amount v.schedule s v.has_timestamps v.has_amounts
            (omega arith) short,
      )

  -- On balanced accounts, the withdrawal of an operator succeeds exactly when its amount is at most what
  -- `query_total_vested` reports in that block.
  pub withdraw_unlocked-query_total_vested :
      {x : EmptyStruct} {shown : ShowTotalVestedResponse}
      → may_load info.sender s.ops ≡ some x
      → query_total_vested env s ≡ ok shown
      → (amount : ℕ)
      → IsOk (execute_initiate_withdraw_unlocked env info amount s).0
        ↔ (amount ≤ shown.vested_amount)
  withdraw_unlocked-query_total_vested is_op e amount =
      let same = reported e in
      ground (arith, short_fails amount, withdraw_unlocked_pays env info amount s v is_op)

-- On balanced accounts, `query_total_vested` answers at all times, in a later block with no less, and with
-- what was withdrawn unlocked and locked with no more than the total.
pub query_total_vested-le :
    (s : Store) (v : IsBalanced s) (env later : Env)
    → env.block.time ≤ later.block.time
    → (shown shown' : ShowTotalVestedResponse) × (query_total_vested env s ≡ ok shown)
      × (query_total_vested later s ≡ ok shown')
      × (shown.vested_amount ≤ shown'.vested_amount)
      × (v.unlocked + v.locked + shown'.vested_amount ≤ v.total)
query_total_vested-le s v env later le =
    let balance = v.balance in
    let all = vested-le-sum later.block.time v.schedule in
    (
      _,
      _,
      query_total_vested_lem env s v,
      query_total_vested_lem later s v,
      vested_mono env.block.time later.block.time v.schedule le,
      omega (arith, all),
    )
