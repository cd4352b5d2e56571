-- ===== src/Tranche/Validate.antt =====
-- `validate` accepts exactly the valid tranches, as long as the sums are u128s.
use gringotts.Base.{
  length, ℕ, ◌+◌, ◌/◌, ◌<◌, ◌≡◌, refl, ◌↔◌, String, List, [], ◌∷◌, sum, All, arith, str_eq,
  Bool-cases, inl, inr,
}
use gringotts.Word.{u64_mod, u128_mod, add64, add128, add128_lem}
use gringotts.Error.{Result-cases, ok}
use gringotts.Cosmos.{Coin, Env}
use gringotts.Host.{Host, IsLawful}
use gringotts.Msg.{Tranche}
use gringotts.Tranche.{total_amount_from, deposited_from, validate_timestamps_from, validate}
use gringotts.Tranche.Spec.{IncreasesFrom, IsInWindow, deposited, IsValid}

total_amount_from_lem :
    (total : ℕ) (xs : List ℕ)
    → All (λ a. 0 < a) xs
    → total + sum xs < u128_mod
    → total_amount_from total xs ≡ ok (total + sum xs)
unfolding total_amount_from
total_amount_from_lem total [] pos h = ground arith
total_amount_from_lem total (x ∷ xs) pos h = ground (
  arith,
  add128_lem total x (omega arith),
  total_amount_from_lem (total + x) xs pos.1 (omega arith),
)

-- A loop over the amounts that ends well has met no zero.
total_amount_from-positive :
    (total : ℕ) (xs : List ℕ) (n : ℕ) → total_amount_from total xs ≡ ok n → All (λ a. 0 < a) xs
unfolding total_amount_from
total_amount_from-positive total [] n h = tt
total_amount_from-positive total (x ∷ xs) n h =
    ground (arith, total_amount_from-positive (add128 total x) xs n)

pub deposited_from_lem :
    (denom : String) (acc : ℕ) (funds : List Coin)
    → acc + deposited denom funds < u128_mod
    → deposited_from denom acc funds ≡ acc + deposited denom funds
unfolding deposited_from deposited
deposited_from_lem denom acc [] h = omega arith
deposited_from_lem denom acc (fund ∷ funds) h = elim (Bool-cases (str_eq fund.denom denom)) [
  | inl same ↦ ground (
    arith,
    add128_lem acc fund.amount (ground arith),
    deposited_from_lem denom (acc + fund.amount) funds,
  )
  | inr other ↦ ground (arith, deposited_from_lem denom acc funds)
]

module _ (h : Host) (law : IsLawful h) (env : Env) (now_u64 : env.block.time < u64_mod) where
  horizon : add64 (h.seconds env.block.time) 3153600000 ≡ env.block.time / 1000000000 + 3153600000
  unfolding add64
  horizon = rw (law.seconds_lem env.block.time) (omega arith)

  validate_timestamps_from_sound :
      (last : ℕ) (ts : List ℕ)
      → validate_timestamps_from h env last ts ≡ ok tt
      → IncreasesFrom last ts × All (IsInWindow env.block.time) ts
  unfolding validate_timestamps_from
  validate_timestamps_from_sound last [] e = (tt, tt)
  validate_timestamps_from_sound last (t ∷ ts) e =
      ground (arith, horizon, law.seconds_lem t, validate_timestamps_from_sound t ts)

  pub validate_timestamps_from_complete :
      (last : ℕ) (ts : List ℕ)
      → IncreasesFrom last ts
      → All (IsInWindow env.block.time) ts
      → validate_timestamps_from h env last ts ≡ ok tt
  unfolding validate_timestamps_from
  validate_timestamps_from_complete last [] inc win = refl
  validate_timestamps_from_complete last (t ∷ ts) inc win =
      ground (arith, horizon, law.seconds_lem t, validate_timestamps_from_complete t ts inc.1 win.1)

  module _ (tranche : Tranche) (funds : List Coin)
      (amounts_u128 : sum tranche.vesting_amounts < u128_mod)
      (funds_u128 : deposited tranche.denom funds < u128_mod) where
    validate_sound : validate h tranche env funds ≡ ok tt → IsValid tranche env.block.time funds
    unfolding validate
    validate_sound e = elim (Result-cases (total_amount_from 0 tranche.vesting_amounts)) [
      | inl (n, ran) ↦
          let positive = total_amount_from-positive 0 tranche.vesting_amounts n ran in
          let total = total_amount_from_lem 0 tranche.vesting_amounts positive (omega arith) in
          let deposit = deposited_from_lem tranche.denom 0 funds (omega arith) in
          record {
            same_length = ground arith;
            non_empty = ground arith;
            positive = positive;
            covered = ground (arith, total, deposit);
            schedulable =
                validate_timestamps_from_sound 0 tranche.vesting_timestamps (ground arith);
          }
      | inr (inl (_, failed)) ↦ ground arith
      | inr (inr panicked) ↦ ground arith
    ]

    validate_complete : IsValid tranche env.block.time funds → validate h tranche env funds ≡ ok tt
    unfolding validate
    validate_complete v = ground (
      arith,
      total_amount_from_lem 0 tranche.vesting_amounts v.positive,
      deposited_from_lem tranche.denom 0 funds,
      validate_timestamps_from_complete 0 tranche.vesting_timestamps v.schedulable.0
          v.schedulable.1,
    )

    -- With a lawful host, where the sum of the amounts and that of the deposit are u128s, and the block
    -- time a u64, `validate` accepts a tranche exactly when its lists have one length and are not empty, every
    -- amount is positive, the deposit covers them, and the timestamps increase strictly, lie not in
    -- the past and at most a hundred years ahead.
    pub validate-IsValid :
        (validate h tranche env funds ≡ ok tt) ↔ IsValid tranche env.block.time funds
    validate-IsValid = (validate_sound, validate_complete)

-- Whatever the host does, what `validate` accepts has lists of one length and positive amounts.
pub validate_shape :
    (h : Host) (tranche : Tranche) (env : Env) (funds : List Coin)
    → validate h tranche env funds ≡ ok tt
    → (length tranche.vesting_amounts ≡ length tranche.vesting_timestamps)
      × All (λ a. 0 < a) tranche.vesting_amounts
unfolding validate
validate_shape h tranche env funds e =
    elim (Result-cases (total_amount_from 0 tranche.vesting_amounts)) [
      | inl (n, ran) ↦ (ground arith, total_amount_from-positive 0 tranche.vesting_amounts n ran)
      | inr (inl (_, failed)) ↦ ground arith
      | inr (inr panicked) ↦ ground arith
    ]
