-- ===== src/Accounting/Early.antt =====
-- Nothing is withdrawn unlocked before it is due.
use mathlib.Core.Path.{subst}
use gringotts.Base.{
  ℕ, ◌+◌, ◌≤◌, ◌<◌, ◌≡◌, sym, some, List, [], ◌∷◌, All, sum, leb, get_or, if◌then◌else◌, arith, inl,
  inr,
}
use gringotts.Word.{u128_mod}
use gringotts.Error.{ok}
use gringotts.Cosmos.{Timestamp, Addr, Env, MessageInfo, Response}
use gringotts.Host.{Host}
use gringotts.Msg.{InstantiateMsg}
use gringotts.State.{Store}
use gringotts.Chain.{Call, deliver, deliver_either, run, run_induction_where}
use gringotts.Vesting.Schedule.{Schedule, timestamps, amounts, vested, vested-consume}
use gringotts.Vesting.Totals.{vested_mono}
use gringotts.Contract.Withdraw.{execute_initiate_withdraw_unlocked}
use gringotts.Contract.Internal.{execute_internal_withdraw_locked}
use gringotts.Contract.Instantiate.{instantiate, save_initial}
use gringotts.Accounting.Frame.{Money, money}
use gringotts.Accounting.Sound.{Balanced, with_rewards, with_unlock_address, with_reward_address}
use gringotts.Accounting.Withdraw.{
  withdraw_unlocked-cases, paid_unlocked, withdraw_locked-cases, paid_locked,
}
use gringotts.Accounting.Conservation.{instantiate-IsBalanced}
use gringotts.Accounting.Execute.{execute-Keeps}

-- The amounts whose timestamp is not after a time, added up.
unfoldable pub due : Timestamp → List Timestamp → List ℕ → ℕ
due now (t ∷ ts) (a ∷ xs) = (if leb t now then a else 0) + due now ts xs
due now _ _ = 0

vested-le-due : (now : Timestamp) (p : Schedule) → vested now p ≤ due now (timestamps p) (amounts p)
unfolding vested due
vested-le-due now [] = omega arith
vested-le-due now ((t, a) ∷ p) = ground (arith, vested-le-due now p)

module _ (T : Timestamp) (cap : ℕ) where
  -- Balanced accounts on which what was withdrawn unlocked, with what has vested by a time, is at most
  -- the cap.
  abbrev Capped : Money → Type 0
  Capped m = (v : Balanced m) × (v.unlocked + vested T v.schedule ≤ cap)

  unlocked-Capped :
      (env : Env) (info : MessageInfo) (n : ℕ) (s : Store)
      → env.block.time ≤ T
      → Capped (money s)
      → Capped (money (execute_initiate_withdraw_unlocked env info n s).1)
  unfolding paid_unlocked
  unlocked-Capped env info n s early (v, bound) = elim (withdraw_unlocked-cases env info n s v) [
    | inl (le, paid) ↦
        let le' = vested_mono env.block.time T v.schedule early in
        let taken = vested-consume T n v.schedule (omega (arith, le, le')) in
        subst (λ t. Capped (money t)) (sym paid)
          (paid_unlocked env info n s v le, omega (arith, taken, bound))
    | inr same ↦ subst (λ t. Capped (money t)) (sym same) (v, bound)
  ]

  locked-Capped :
      (env : Env) (info : MessageInfo) (dst : Addr) (s : Store)
      → Capped (money s)
      → Capped (money (execute_internal_withdraw_locked env info dst s).1)
  unfolding paid_locked vested
  locked-Capped env info dst s (v, bound) = elim (withdraw_locked-cases env info dst s v) [
    | inl paid ↦
        subst (λ t. Capped (money t)) (sym paid)
          (paid_locked env info dst s v, omega (arith, bound))
    | inr same ↦ subst (λ t. Capped (money t)) (sym same) (v, bound)
  ]

  deliver-Capped :
      (h : Host) (c : Call) (s : Store)
      → c.env.block.time ≤ T
      → Capped (money s)
      → Capped (money (deliver h c s))
  unfolding with_rewards with_unlock_address with_reward_address
  deliver-Capped h c s early v =
      deliver_either h (λ t. Capped (money t)) c s v
        ((execute-Keeps {P = λ t. Capped (money t)} c.env c.info
            (λ s t same v. subst Capped (sym same) v)
            (λ n. record { at = λ t. unlocked-Capped c.env c.info n t early })
            (λ dst. record { at = locked-Capped c.env c.info dst })
            (λ n s (v, bound). (with_rewards s v n, bound))
            (λ a s (v, bound). (with_unlock_address s v a, bound))
            (λ a s (v, bound). (with_reward_address s v a, bound)) h c.querier c.msg).at
          s v)

start_cells :
    (h : Host) (env : Env) (info : MessageInfo) (msg : InstantiateMsg) (storage : Store)
    {r : Response}
    → let s = (instantiate h env info msg storage).1 in
      (instantiate h env info msg storage).0 ≡ ok r
      → (s.vesting_timestamps ≡ some msg.tranche.vesting_timestamps)
        × (s.vesting_amounts ≡ some msg.tranche.vesting_amounts)
        × (s.withdrawn_unlocked ≡ some 0)
unfolding instantiate save_initial
start_cells h env info msg storage e = (ground arith, ground arith, ground arith)

-- From a successful instantiation on whose amounts sum to a u128, and after any calls in blocks that are
-- not after a time: what was withdrawn unlocked is at most the sum of the amounts of the tranche whose
-- timestamps are not after that time.
pub withdrawn_unlocked-due :
    (h : Host) (env : Env) (info : MessageInfo) (msg : InstantiateMsg) (storage : Store)
    {r : Response}
    → (instantiate h env info msg storage).0 ≡ ok r
    → sum msg.tranche.vesting_amounts < u128_mod
    → (T : Timestamp) (calls : List Call) → All (λ c. c.env.block.time ≤ T) calls
    → get_or (run h calls (instantiate h env info msg storage).1).withdrawn_unlocked 0
      ≤ due T msg.tranche.vesting_timestamps msg.tranche.vesting_amounts
withdrawn_unlocked-due h env info msg storage {r} e fits T calls early =
    let start = (instantiate h env info msg storage).1 in
    let v = instantiate-IsBalanced h env info msg storage r e fits in
    let (ts, xs, out) = start_cells h env info msg storage e in
    let cap = due T msg.tranche.vesting_timestamps msg.tranche.vesting_amounts in
    let same : due T (timestamps v.schedule) (amounts v.schedule) ≡ cap =
      ground (arith, ts, xs, v.has_timestamps, v.has_amounts) in
    let none_out : v.unlocked ≡ 0 = ground (arith, out, v.has_unlocked) in
    let (w, bound) =
      run_induction_where h (λ t. Capped T cap (money t)) (λ c. c.env.block.time ≤ T)
        (λ c s q p. deliver-Capped T cap h c s q p) calls early start
        (v, omega (arith, same, none_out, vested-le-due T v.schedule)) in
    ground (arith, w.has_unlocked, bound)
