-- ===== src/Accounting/Matured.antt =====
-- Once the last timestamp of the tranche is past, all that is left can be withdrawn.
use mathlib.Core.Path.{subst}
use gringotts.Base.{
  ℕ, ◌+◌, ◌≤◌, ◌<◌, ◌≡◌, ◌∙◌, sym, some, List, [], All, sum, get_or, arith, inl, inr,
}
use gringotts.Word.{u128_mod}
use gringotts.Error.{ok, IsOk}
use gringotts.Cosmos.{Timestamp, Addr, Env, MessageInfo, Response}
use gringotts.Host.{Host}
use gringotts.Msg.{InstantiateMsg, EmptyStruct, ShowTotalVestedResponse}
use gringotts.Storage.{may_load}
use gringotts.Storage.Keys.{string_key}
use gringotts.State.{Store}
use gringotts.Chain.{Call, deliver, deliver_either, run, run_induction}
use gringotts.Vesting.Schedule.{
  timestamps, amounts, vested-sum, consume-sum, All-timestamps-consume,
}
use gringotts.Vesting.Totals.{total_vested_amount-vested}
use gringotts.Contract.Query.{query_total_vested}
use gringotts.Contract.Withdraw.{execute_initiate_withdraw_unlocked}
use gringotts.Contract.Internal.{execute_internal_withdraw_locked}
use gringotts.Contract.Instantiate.{instantiate, save_initial}
use gringotts.Accounting.Frame.{Money, money}
use gringotts.Accounting.Sound.{
  Balanced, IsBalanced, with_rewards, with_unlock_address, with_reward_address,
}
use gringotts.Accounting.Withdraw.{
  withdraw_unlocked_pays, withdraw_unlocked-cases, paid_unlocked, withdraw_locked-cases,
  paid_locked,
}
use gringotts.Accounting.Conservation.{conservation, instantiate-IsBalanced}
use gringotts.Accounting.Execute.{execute-Keeps}

-- Balanced accounts whose schedule ends by a time.
abbrev pub EndsBy : Timestamp → Money → Type 0
EndsBy T m =
    Balanced m × ((ts : List Timestamp) → m.vesting_timestamps ≡ some ts → All (λ t. t ≤ T) ts)

module _ (T : Timestamp) where
  -- The stored timestamps are the one list that is past.
  past_only :
      {xs : List Timestamp}
      → All (λ t. t ≤ T) xs
      → (ts : List Timestamp) → some xs ≡ some ts
      → All (λ t. t ≤ T) ts
  past_only past ts e = subst (λ l. All (λ t. t ≤ T) l) (ground (arith, e)) past

  unlocked-EndsBy :
      (env : Env) (info : MessageInfo) (n : ℕ) (s : Store)
      → EndsBy T (money s)
      → EndsBy T (money (execute_initiate_withdraw_unlocked env info n s).1)
  unlocked-EndsBy env info n s (v, ends) = elim (withdraw_unlocked-cases env info n s v) [
    | inl (le, paid) ↦
        subst (λ t. EndsBy T (money t)) (sym paid)
          (
            paid_unlocked env info n s v le,
            past_only (
                All-timestamps-consume T n v.schedule
                  (ends (timestamps v.schedule) v.has_timestamps)),
          )
    | inr same ↦ subst (λ t. EndsBy T (money t)) (sym same) (v, ends)
  ]

  locked-EndsBy :
      (env : Env) (info : MessageInfo) (dst : Addr) (s : Store)
      → EndsBy T (money s)
      → EndsBy T (money (execute_internal_withdraw_locked env info dst s).1)
  locked-EndsBy env info dst s (v, ends) = elim (withdraw_locked-cases env info dst s v) [
    | inl paid ↦
        subst (λ t. EndsBy T (money t)) (sym paid) (paid_locked env info dst s v, past_only tt)
    | inr same ↦ subst (λ t. EndsBy T (money t)) (sym same) (v, ends)
  ]

  deliver-EndsBy :
      (h : Host) (c : Call) (s : Store) → EndsBy T (money s) → EndsBy T (money (deliver h c s))
  deliver-EndsBy h c s v =
      deliver_either h (λ t. EndsBy T (money t)) c s v
        ((execute-Keeps {P = λ t. EndsBy T (money t)} c.env c.info
            (λ s t same v. subst (EndsBy T) (sym same) v)
            (λ n. record { at = unlocked-EndsBy c.env c.info n })
            (λ dst. record { at = locked-EndsBy c.env c.info dst })
            (λ n s (v, ends). (with_rewards s v n, ends))
            (λ a s (v, ends). (with_unlock_address s v a, ends))
            (λ a s (v, ends). (with_reward_address s v a, ends)) h c.querier c.msg).at
          s v)

-- On balanced accounts whose timestamps are all past, what is reported as vested is all that is left,
-- and its withdrawal by an operator leaves nothing.
matured_withdrawal :
    (env : Env) (info : MessageInfo) (s : Store) (v : IsBalanced s) {x : EmptyStruct}
    → All (λ t. t ≤ env.block.time) (timestamps v.schedule)
    → may_load info.sender s.ops ≡ some x
    → (shown : ShowTotalVestedResponse) × (query_total_vested env s ≡ ok shown)
      × (let (result, s') = execute_initiate_withdraw_unlocked env info shown.vested_amount s in
          IsOk result
          × (s'.vesting_amounts ≡ some [])
          × (get_or s'.withdrawn_unlocked 0 + get_or s'.withdrawn_locked 0 ≡ v.total))
unfolding query_total_vested
matured_withdrawal env info s v past is_op =
    let balance = v.balance in
    let bound = v.total_u128 in
    let all = vested-sum env.block.time v.schedule past in
    let left = sum (amounts v.schedule) in
    let empty = consume-sum v.schedule v.positive in
    let pays = withdraw_unlocked_pays env info left s v is_op (omega (arith, all)) in
    (
      record { vested_amount = left },
      ground (
        arith,
        all,
        total_vested_amount-vested env.block.time v.schedule s v.has_timestamps v.has_amounts
            (omega arith),
      ),
      (
        ground (arith, pays),
        ground (arith, pays, empty),
        ground (arith, pays, v.has_locked, balance),
      ),
    )

start-EndsBy :
    (h : Host) (env : Env) (info : MessageInfo) (msg : InstantiateMsg) (s : Store) {r : Response}
    → (instantiate h env info msg s).0 ≡ ok r
    → (instantiate h env info msg s).1.vesting_timestamps ≡ some msg.tranche.vesting_timestamps
unfolding instantiate save_initial
start-EndsBy h env info msg s e = ground arith

-- From a successful instantiation on whose amounts sum to a u128, after any calls, in a block that is not
-- before any timestamp of the tranche: an operator who withdraws what `query_total_vested` reports
-- succeeds, nothing is left to vest, and what was withdrawn unlocked and locked is then the sum of the
-- amounts of the tranche.
pub withdraw_unlocked-matured :
    (h : Host) (env : Env) (info : MessageInfo) (msg : InstantiateMsg) (storage : Store)
    {r : Response}
    → (instantiate h env info msg storage).0 ≡ ok r
    → sum msg.tranche.vesting_amounts < u128_mod
    → (calls : List Call) (env' : Env) (info' : MessageInfo) {x : EmptyStruct}
    → All (λ t. t ≤ env'.block.time) msg.tranche.vesting_timestamps
    → let s = run h calls (instantiate h env info msg storage).1 in
      may_load info'.sender s.ops ≡ some x
      → (shown : ShowTotalVestedResponse) × (query_total_vested env' s ≡ ok shown)
        × (let (result, s') = execute_initiate_withdraw_unlocked env' info' shown.vested_amount s in
            IsOk result
            × (s'.vesting_amounts ≡ some [])
            × (get_or s'.withdrawn_unlocked 0 + get_or s'.withdrawn_locked 0
                ≡ sum msg.tranche.vesting_amounts))
withdraw_unlocked-matured h env info msg storage {r} e fits calls env' info' past is_op =
    let start = (instantiate h env info msg storage).1 in
    let T = env'.block.time in
    let (v, ends) =
      run_induction h (λ s. EndsBy T (money s)) (λ c s. deliver-EndsBy T h c s) calls start
        (
          instantiate-IsBalanced h env info msg storage r e fits,
          λ ts e'. past_only T past ts (sym (start-EndsBy h env info msg storage e) ∙ e'),
        ) in
    let total = (conservation h env info msg storage e fits calls).1 in
    let same : v.total ≡ sum msg.tranche.vesting_amounts = ground (arith, total, v.has_total) in
    let (shown, reported, (works, empty, out)) =
      matured_withdrawal env' info' (run h calls start) v
        (ends (timestamps v.schedule) v.has_timestamps) is_op in
    (shown, reported, (works, empty, out ∙ same))
