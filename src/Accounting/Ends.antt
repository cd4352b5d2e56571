-- ===== src/Accounting/Ends.antt =====
-- How many withdrawals there are in a run.
use mathlib.Core.Path.{subst}
use gringotts.Base.{
  ℕ, suc, ◌+◌, ◌≤◌, ◌<◌, ◌≡◌, sym, ap, List, [], ◌∷◌, sum, ltb, arith, inl, inr, Option-cases,
  Bool-cases,
}
use gringotts.Word.{u128_mod}
use gringotts.Error.{Result-cases, Result, ok}
use gringotts.Cosmos.{Addr, Env, MessageInfo, Response}
use gringotts.Host.{Host, Querier}
use gringotts.Storage.{may_load}
use gringotts.Storage.Keys.{string_key}
use gringotts.Msg.{ExecuteMsg, InstantiateMsg}
use gringotts.State.{Store}
use gringotts.Permission.{authorize_op}
use gringotts.Chain.{Call, commit, deliver, deliver_either}
use gringotts.Vesting.Schedule.{amounts, vested, vested-le-sum, consume, sum-consume}
use gringotts.Contract.Withdraw.{execute_initiate_withdraw_unlocked}
use gringotts.Contract.Internal.{execute_internal_withdraw_locked}
use gringotts.Contract.Instantiate.{instantiate, save_initial}
use gringotts.Contract.Execute.{execute}
use gringotts.Accounting.Frame.{Money, money}
use gringotts.Accounting.Sound.{Balanced, with_rewards, with_unlock_address, with_reward_address}
use gringotts.Accounting.Withdraw.{
  withdraw_unlocked_pays, withdraw_unlocked-cases, paid_unlocked, withdraw_locked-cases,
  paid_locked,
}
use gringotts.Accounting.Reported.{short_fails}
use gringotts.Accounting.Conservation.{instantiate-IsBalanced}
use gringotts.Accounting.Execute.{execute-Keeps}

-- One for a withdrawal of a positive amount that succeeded.
abbrev withdrew : ExecuteMsg → Result Response → ℕ
withdrew (ExecuteMsg.initiate_withdraw_unlocked (suc n)) (ok r) = 1
withdrew msg result = 0

-- How many withdrawals of positive amounts succeed in a run.
unfoldable pub withdrawals : Host → List Call → Store → ℕ
withdrawals h [] s = 0
withdrawals h (c ∷ calls) s =
    withdrew c.msg (execute h c.querier c.env c.info c.msg s).0
    + withdrawals h calls (deliver h c s)

-- Balanced accounts on which no more than the cap is to vest.
abbrev Remains : ℕ → Money → Type 0
Remains cap m = (v : Balanced m) × (sum (amounts v.schedule) ≤ cap)

module _ (cap : ℕ) where
  unlocked-Remains :
      (env : Env) (info : MessageInfo) (n : ℕ) (s : Store)
      → Remains cap (money s)
      → Remains cap (money (execute_initiate_withdraw_unlocked env info n s).1)
  unfolding paid_unlocked
  unlocked-Remains env info n s (v, bound) = elim (withdraw_unlocked-cases env info n s v) [
    | inl (le, paid) ↦
        let covered = vested-le-sum env.block.time v.schedule in
        let taken = sum-consume n v.schedule (omega (arith, le, covered)) in
        subst (λ t. Remains cap (money t)) (sym paid)
          (paid_unlocked env info n s v le, omega (arith, taken, bound))
    | inr same ↦ subst (λ t. Remains cap (money t)) (sym same) (v, bound)
  ]

  locked-Remains :
      (env : Env) (info : MessageInfo) (dst : Addr) (s : Store)
      → Remains cap (money s)
      → Remains cap (money (execute_internal_withdraw_locked env info dst s).1)
  unfolding paid_locked
  locked-Remains env info dst s (v, bound) = elim (withdraw_locked-cases env info dst s v) [
    | inl paid ↦
        subst (λ t. Remains cap (money t)) (sym paid) (paid_locked env info dst s v, omega arith)
    | inr same ↦ subst (λ t. Remains cap (money t)) (sym same) (v, bound)
  ]

  deliver-Remains :
      (h : Host) (c : Call) (s : Store)
      → Remains cap (money s)
      → Remains cap (money (deliver h c s))
  unfolding with_rewards with_unlock_address with_reward_address
  deliver-Remains h c s v =
      deliver_either h (λ t. Remains cap (money t)) c s v
        ((execute-Keeps {P = λ t. Remains cap (money t)} c.env c.info
            (λ s t same v. subst (λ m. Remains cap m) (sym same) v)
            (λ n. record { at = unlocked-Remains c.env c.info n })
            (λ dst. record { at = locked-Remains c.env c.info dst })
            (λ n s (v, bound). (with_rewards s v n, bound))
            (λ a s (v, bound). (with_unlock_address s v a, bound))
            (λ a s (v, bound). (with_reward_address s v a, bound)) h c.querier c.msg).at
          s v)

  -- A withdrawal that succeeds takes its amount from what remains.
  withdrawn-Remains :
      (env : Env) (info : MessageInfo) (n : ℕ) (s : Store) {r : Response}
      → Remains cap (money s)
      → (execute_initiate_withdraw_unlocked env info n s).0 ≡ ok r
      → (k : ℕ) × Remains k (money (execute_initiate_withdraw_unlocked env info n s).1)
        × (k + n ≤ cap)
  unfolding paid_unlocked authorize_op execute_initiate_withdraw_unlocked
  withdrawn-Remains env info n s (v, bound) e = elim (Option-cases (may_load info.sender s.ops)) [
    | inl outsider ↦ absurd (ground arith)
    | inr (x, is_op) ↦ elim (Bool-cases (ltb (vested env.block.time v.schedule) n)) [
      | inl short ↦ absurd (short_fails env info s v n (ground arith) (ground (arith, e)))
      | inr enough ↦
          let le : n ≤ vested env.block.time v.schedule = ground arith in
          let covered = vested-le-sum env.block.time v.schedule in
          let taken = sum-consume n v.schedule (omega (arith, le, covered)) in
          (
            sum (amounts (consume n v.schedule)),
            subst (λ t. Remains (sum (amounts (consume n v.schedule))) (money t))
                (sym (ap (λ x. x.1) (withdraw_unlocked_pays env info n s v is_op le)))
                (paid_unlocked env info n s v le, omega arith),
            omega (arith, taken, bound),
          )
    ]
  ]

  -- What remains after a call, with the withdrawal that it was, is no more than before.
  step-Remains :
      (h : Host) (querier : Querier) (env : Env) (info : MessageInfo) (msg : ExecuteMsg) (s : Store)
      → Remains cap (money s)
      → let result = execute h querier env info msg s in
        (k : ℕ) × Remains k (money (commit s result)) × (withdrew msg result.0 + k ≤ cap)
  unfolding commit deliver execute
  step-Remains h querier env info (ExecuteMsg.initiate_withdraw_unlocked (suc n)) s v =
      elim (Result-cases (execute_initiate_withdraw_unlocked env info (suc n) s).0) [
        | inl (r, works) ↦
            let (k, v', less) = withdrawn-Remains env info (suc n) s v works in
            rw works (k, v', omega (arith, less))
        | inr (inl (_, failed)) ↦ rw failed (cap, v, omega arith)
        | inr (inr failed) ↦ rw failed (cap, v, omega arith)
      ]
  step-Remains h querier env info msg s v =
      let c : Call = record { querier = querier; env = env; info = info; msg = msg } in
      (cap, deliver-Remains h c s v, omega arith)

withdrawals-le :
    (h : Host) (calls : List Call) (cap : ℕ) (s : Store)
    → Remains cap (money s)
    → withdrawals h calls s ≤ cap
unfolding withdrawals deliver
withdrawals-le h [] cap s v = omega arith
withdrawals-le h (c ∷ calls) cap s v =
    let (k, v', less) = step-Remains cap h c.querier c.env c.info c.msg s v in
    omega (arith, less, withdrawals-le h calls k (deliver h c s) v')

start-Remains :
    (h : Host) (env : Env) (info : MessageInfo) (msg : InstantiateMsg) (storage : Store)
    {r : Response}
    → (instantiate h env info msg storage).0 ≡ ok r
    → sum msg.tranche.vesting_amounts < u128_mod
    → Remains (sum msg.tranche.vesting_amounts) (money (instantiate h env info msg storage).1)
unfolding instantiate save_initial
start-Remains h env info msg storage {r} e fits =
    let v = instantiate-IsBalanced h env info msg storage r e fits in
    let same : amounts v.schedule ≡ msg.tranche.vesting_amounts = ground (arith, v.has_amounts) in
    (v, omega (arith, ap (λ l. sum l) same))

-- Withdrawals end: from a successful instantiation on whose amounts sum to a u128, and in whatever
-- calls, no more withdrawals of positive amounts succeed than the sum of the amounts of the tranche.
pub withdrawals-instantiate :
    (h : Host) (env : Env) (info : MessageInfo) (msg : InstantiateMsg) (storage : Store)
    {r : Response}
    → (instantiate h env info msg storage).0 ≡ ok r
    → sum msg.tranche.vesting_amounts < u128_mod
    → (calls : List Call)
    → withdrawals h calls (instantiate h env info msg storage).1 ≤ sum msg.tranche.vesting_amounts
withdrawals-instantiate h env info msg storage e fits calls =
    withdrawals-le h calls (sum msg.tranche.vesting_amounts) (instantiate h env info msg storage).1
      (start-Remains h env info msg storage e fits)
