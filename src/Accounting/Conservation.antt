-- ===== src/Accounting/Conservation.antt =====
-- From instantiation on, what was paid out and what is to vest are together what was locked.
use mathlib.Core.Path.{subst}
use gringotts.Base.{◌∙◌, sym, ℕ, ◌<◌, ◌≡◌, refl, ap, List, [], ◌∷◌, some, sum, All, length, arith}
use gringotts.Word.{u128_mod, sum128_lem}
use gringotts.Error.{ok}
use gringotts.Cosmos.{Timestamp, Env, MessageInfo, Response}
use gringotts.Host.{Host}
use gringotts.Msg.{InstantiateMsg}
use gringotts.State.{Store}
use gringotts.Chain.{Call, commit, deliver, deliver_either, run, run_induction}
use gringotts.Tranche.{validate}
use gringotts.Tranche.Validate.{validate_shape}
use gringotts.Vesting.Schedule.{Schedule, timestamps, amounts}
use gringotts.Contract.Instantiate.{save_initial, instantiate}
use gringotts.Accounting.Sound.{IsBalanced}
use gringotts.Accounting.Total.{execute-total_amount}
use gringotts.Accounting.Execute.{execute-IsBalanced}

-- Two lists of one length are a schedule.
abbrev pairs : List Timestamp → List ℕ → Schedule
pairs (t ∷ ts) (a ∷ xs) = (t, a) ∷ pairs ts xs
pairs _ _ = []

timestamps-pairs :
    (ts : List Timestamp) (xs : List ℕ) → length xs ≡ length ts → timestamps (pairs ts xs) ≡ ts
timestamps-pairs [] xs h = refl
timestamps-pairs (t ∷ ts) [] h = absurd (omega arith)
timestamps-pairs (t ∷ ts) (a ∷ xs) h = ap (λ l. t ∷ l) (timestamps-pairs ts xs (omega arith))

amounts-pairs :
    (ts : List Timestamp) (xs : List ℕ) → length xs ≡ length ts → amounts (pairs ts xs) ≡ xs
amounts-pairs [] [] h = refl
amounts-pairs [] (a ∷ xs) h = absurd (omega arith)
amounts-pairs (t ∷ ts) [] h = absurd (omega arith)
amounts-pairs (t ∷ ts) (a ∷ xs) h = ap (λ l. a ∷ l) (amounts-pairs ts xs (omega arith))

module _ (h : Host) (env : Env) (info : MessageInfo) (msg : InstantiateMsg) (s : Store) where
  instantiate_ok :
      (r : Response)
      → (instantiate h env info msg s).0 ≡ ok r
      → ((instantiate h env info msg s).1 ≡ (save_initial h msg s).1)
        × (validate h msg.tranche env info.funds ≡ ok tt)
  unfolding instantiate
  instantiate_ok r e = ground arith

  save_initial-IsBalanced :
      length msg.tranche.vesting_amounts ≡ length msg.tranche.vesting_timestamps
      → All (λ a. 0 < a) msg.tranche.vesting_amounts
      → sum msg.tranche.vesting_amounts < u128_mod
      → IsBalanced (save_initial h msg s).1
  unfolding save_initial
  save_initial-IsBalanced same pos fits =
      let ts = msg.tranche.vesting_timestamps in
      let xs = msg.tranche.vesting_amounts in
      let eq = amounts-pairs ts xs same in
      record {
        denom = msg.tranche.denom;
        schedule = pairs ts xs;
        total = sum xs;
        unlock_address = msg.tranche.unlocked_token_distribution_address;
        reward_address = msg.tranche.staking_reward_distribution_address;
        rewards = 0;
        unlocked = 0;
        locked = 0;
        has_denom = refl;
        has_timestamps = ap (λ l. some l) (sym (timestamps-pairs ts xs same));
        has_amounts = ap (λ l. some l) (sym eq);
        has_total = ap (λ (n : ℕ). some n) (sum128_lem xs fits);
        has_unlock_address = refl;
        has_reward_address = refl;
        has_rewards = refl;
        has_unlocked = refl;
        has_locked = refl;
        positive = subst (λ l. All (λ a. 0 < a) l) (sym eq) pos;
        balance = omega (arith, ap (λ l. sum l) eq);
        total_u128 = fits;
      }

  -- A successful instantiation whose amounts sum to a u128 leaves balanced accounts.
  pub instantiate-IsBalanced :
      (r : Response)
      → (instantiate h env info msg s).0 ≡ ok r
      → sum msg.tranche.vesting_amounts < u128_mod
      → IsBalanced (instantiate h env info msg s).1
  instantiate-IsBalanced r e fits =
      let (same_store, valid) = instantiate_ok r e in
      let (same, pos) = validate_shape h msg.tranche env info.funds valid in
      subst (λ t. IsBalanced t) (sym same_store) (save_initial-IsBalanced same pos fits)

  instantiate-total_amount :
      (r : Response)
      → (instantiate h env info msg s).0 ≡ ok r
      → sum msg.tranche.vesting_amounts < u128_mod
      → (instantiate h env info msg s).1.total_amount ≡ some (sum msg.tranche.vesting_amounts)
  unfolding save_initial
  instantiate-total_amount r e fits =
      ap (λ t. t.total_amount) (instantiate_ok r e).0
      ∙ ap (λ (n : ℕ). some n) (sum128_lem msg.tranche.vesting_amounts fits)

module _ (h : Host) where
  pub deliver-IsBalanced : (c : Call) (s : Store) → IsBalanced s → IsBalanced (deliver h c s)
  deliver-IsBalanced c s v =
      deliver_either h (λ t. IsBalanced t) c s v
        (execute-IsBalanced h c.querier c.env c.info c.msg s v)

  deliver-total_amount : (c : Call) (s : Store) → (deliver h c s).total_amount ≡ s.total_amount
  unfolding deliver commit
  deliver-total_amount c s = ground (arith, execute-total_amount h c.querier c.env c.info c.msg s)

  -- Once the contract has been instantiated with amounts that sum to a u128, then after any messages
  -- the cells of the accounts are filled, the schedule holds positive amounts, what was withdrawn
  -- unlocked and locked is with what is still to vest the total, and that total is the sum of the
  -- amounts of the tranche.
  pub conservation :
      (env : Env) (info : MessageInfo) (msg : InstantiateMsg) (s : Store) {r : Response}
      → (instantiate h env info msg s).0 ≡ ok r
      → sum msg.tranche.vesting_amounts < u128_mod
      → (calls : List Call)
      → let s' = run h calls (instantiate h env info msg s).1 in
        IsBalanced s' × (s'.total_amount ≡ some (sum msg.tranche.vesting_amounts))
  conservation env info msg s {r} e fits calls =
      run_induction h
        (λ t. IsBalanced t × (t.total_amount ≡ some (sum msg.tranche.vesting_amounts)))
        (λ c t p. (deliver-IsBalanced c t p.0, deliver-total_amount c t ∙ p.1)) calls
        (instantiate h env info msg s).1
        (
          instantiate-IsBalanced h env info msg s r e fits,
          instantiate-total_amount h env info msg s r e fits,
        )
