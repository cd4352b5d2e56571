-- ===== src/Tranche/Overflow.antt =====
-- The deposit check of `validate` compares sums that wrap at 2^128.
use gringotts.Base.{ℕ, ◌+◌, ◌%◌, ◌≤◌, ◌<◌, ◌≡◌, List, [], ◌∷◌, sum, All, length, arith}
use gringotts.Word.{u64_mod, u128_mod, add128}
use gringotts.Error.{ok}
use gringotts.Cosmos.{Coin, Env}
use gringotts.Host.{Host, IsLawful}
use gringotts.Msg.{Tranche}
use gringotts.Tranche.{total_amount_from, validate}
use gringotts.Tranche.Spec.{IsSchedulable, deposited}
use gringotts.Tranche.Validate.{deposited_from_lem, validate_timestamps_from_complete}

total_amount_from_wraps :
    (total : ℕ) (xs : List ℕ)
    → All (λ a. 0 < a) xs
    → total < u128_mod
    → total_amount_from total xs ≡ ok ((total + sum xs) % u128_mod)
unfolding total_amount_from add128
total_amount_from_wraps total [] pos h = ground arith
total_amount_from_wraps total (x ∷ xs) pos h =
    ground (arith, total_amount_from_wraps ((total + x) % u128_mod) xs pos.1 (omega arith))

-- With a lawful host and a block time that is a u64: a tranche with as many amounts as timestamps, of
-- positive amounts whose sum is 2^128 or more, and of timestamps that increase strictly, lie not in the past
-- and at most a hundred years ahead, is accepted where the deposit is a u128 and at least the sum modulo
-- 2^128; and the deposit is then smaller than the sum.
pub validate_wraps :
    (h : Host) (law : IsLawful h) (env : Env) (tranche : Tranche) (funds : List Coin)
    → env.block.time < u64_mod
    → length tranche.vesting_amounts ≡ length tranche.vesting_timestamps
    → All (λ a. 0 < a) tranche.vesting_amounts
    → IsSchedulable env.block.time tranche.vesting_timestamps
    → u128_mod ≤ sum tranche.vesting_amounts
    → sum tranche.vesting_amounts % u128_mod ≤ deposited tranche.denom funds
    → deposited tranche.denom funds < u128_mod
    → (validate h tranche env funds ≡ ok tt)
      × (deposited tranche.denom funds < sum tranche.vesting_amounts)
unfolding validate
validate_wraps h law env tranche funds now_u64 same pos sched large covered fits = (
  ground (
    arith,
    total_amount_from_wraps 0 tranche.vesting_amounts pos (omega arith),
    deposited_from_lem tranche.denom 0 funds,
    validate_timestamps_from_complete h law env now_u64 0 tranche.vesting_timestamps sched.0
        sched.1,
  ),
  omega arith,
)
