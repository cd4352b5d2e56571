-- ===== src/Accounting/Surplus.antt =====
-- `calculate_withdrawn_rewards` sends on what the principal does not need.
use gringotts.Msg.{UnbondingDelegationsResponse, stakingext, unbonding_delegations}
use gringotts.Vesting.Schedule.{amounts}
use gringotts.Base.{
  ◌⊎◌, map, ℕ, ◌+◌, ◌-◌, ◌≤◌, ◌<◌, ◌≡◌, refl, if◌then◌else◌, String, str_eq, List, [], ◌∷◌, some,
  sum, arith,
}
use gringotts.Word.{u128_mod, add128, sub128, add128_lem, sum128_lem}
use gringotts.Error.{ok}
use gringotts.Cosmos.{Env, Coin, Delegation}
use gringotts.Host.{Querier}
use gringotts.Staking.{get_unbonding_balance}
use gringotts.State.{Store}
use gringotts.Contract.Rewards.{
  staked_amounts, principal_in_bank_of, surplus, calculate_withdrawn_rewards,
}
use gringotts.Accounting.Sound.{IsBalanced}

-- What is staked of each delegation in the denomination.
abbrev pub staked_in : String → List Delegation → List ℕ
staked_in denom [] = []
staked_in denom (del ∷ rest) =
    (if str_eq del.amount.denom denom then del.amount.amount else 0) ∷ staked_in denom rest

pub staked_amounts_lem :
    (s : Store) (denom : String)
    → s.denom ≡ some denom
    → (dels : List Delegation) → staked_amounts s dels ≡ ok (staked_in denom dels)
unfolding staked_amounts
staked_amounts_lem s denom e [] = refl
staked_amounts_lem s denom e (del ∷ rest) = ground (arith, staked_amounts_lem s denom e rest)

surplus_lem :
    (total withdrawn staked unbonding bank : ℕ)
    → withdrawn + staked + unbonding < u128_mod
    → total < u128_mod
    → bank < u128_mod
    → surplus (principal_in_bank_of total withdrawn staked unbonding) bank
      ≡ bank - (total - (withdrawn + staked + unbonding))
unfolding surplus principal_in_bank_of add128 sub128
surplus_lem total withdrawn staked unbonding bank h1 h2 h3 = ground arith

module _ (querier : Querier) (env : Env) (s : Store) (v : IsBalanced s) (bank : Coin)
    (dels : List Delegation) (response : UnbondingDelegationsResponse) where
  -- The principal that is not in the bank.
  abbrev away : ℕ
  away = sum (staked_in v.denom dels) + sum (map (λ e. e.balance) response.entries)

  calculate_lem :
      querier.query_balance env.address v.denom ≡ ok bank
      → querier.query_all_delegations env.address ≡ ok dels
      → querier.query_custom
          (record { route = stakingext; query_data = unbonding_delegations env.address })
        ≡ ok response
      → v.unlocked + v.locked + away < u128_mod
      → bank.amount < u128_mod
      → calculate_withdrawn_rewards querier s env
        ≡ ok (bank.amount - (sum (amounts v.schedule) - away))
  unfolding calculate_withdrawn_rewards get_unbonding_balance
  calculate_lem e1 e2 e3 fits fits' =
      let staked = sum (staked_in v.denom dels) in
      let unbonding = sum (map (λ e. e.balance) response.entries) in
      let balance = v.balance in
      let net : sum (amounts v.schedule) - away
          ≡ v.total - (v.locked + v.unlocked + staked + unbonding) =
        omega arith in
      ground (
        arith,
        net,
        e1,
        e2,
        e3,
        v.has_denom,
        v.has_total,
        v.has_locked,
        v.has_unlocked,
        staked_amounts_lem s v.denom v.has_denom dels,
        sum128_lem (staked_in v.denom dels) (omega arith),
        sum128_lem (map (λ e. e.balance) response.entries) (omega arith),
        add128_lem v.locked v.unlocked (omega arith),
        surplus_lem v.total (v.locked + v.unlocked) staked unbonding bank.amount (omega arith)
            v.total_u128 fits',
      )

  -- On balanced accounts, with sums that fit a u128, where bank, delegations and unbonding tokens cover
  -- all that is to vest: the amount that is sent on as rewards leaves it covered, and it is the largest
  -- such amount: it is the whole bank balance, or what is left covers exactly what is to vest.
  pub calculate_withdrawn_rewards-largest :
      querier.query_balance env.address v.denom ≡ ok bank
      → querier.query_all_delegations env.address ≡ ok dels
      → querier.query_custom
          (record { route = stakingext; query_data = unbonding_delegations env.address })
        ≡ ok response
      → v.unlocked + v.locked + away < u128_mod
      → bank.amount < u128_mod
      → sum (amounts v.schedule) ≤ away + bank.amount
      → (rewards : ℕ) × (calculate_withdrawn_rewards querier s env ≡ ok rewards)
        × (rewards ≤ bank.amount)
        × (sum (amounts v.schedule) ≤ away + (bank.amount - rewards))
        × ((rewards ≡ bank.amount) ⊎ (sum (amounts v.schedule) ≡ away + (bank.amount - rewards)))
  calculate_withdrawn_rewards-largest e1 e2 e3 fits fits' covered =
      let to_vest = sum (amounts v.schedule) in
      (
        bank.amount - (to_vest - away),
        calculate_lem e1 e2 e3 fits fits',
        omega arith,
        omega arith,
        ground arith,
      )
