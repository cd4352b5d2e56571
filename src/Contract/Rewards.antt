-- ===== src/Contract/Rewards.antt =====
-- `calculate_withdrawn_rewards`: the rewards that lie in the contract's bank balance already.
use gringotts.Base.{ℕ, ltb, str_eq, if◌then◌else◌, List, [], ◌∷◌, none, some}
use gringotts.Word.{add128, sub128, sum128}
use gringotts.Error.{Result, ok, panic, ◌>>=◌}
use gringotts.Cosmos.{Env, Delegation}
use gringotts.Host.{Querier}
use gringotts.Staking.{get_unbonding_balance}
use gringotts.State.{Store, load}

-- The closure over the delegations: `DENOM.load(..).unwrap()` panics where there is no denomination.
unfoldable pub staked_of : Store → Delegation → Result ℕ
staked_of s del = elim s.denom [
  | none ↦ panic
  | some denom ↦ ok (if str_eq del.amount.denom denom then del.amount.amount else 0)
]

unfoldable pub staked_amounts : Store → List Delegation → Result (List ℕ)
unfolding staked_of
staked_amounts s [] = ok []
staked_amounts s (del ∷ rest) = do
  amount ← staked_of s del
  amounts ← staked_amounts s rest
  ok (amount ∷ amounts)

-- The part of the principal that is in the bank.
unfoldable pub principal_in_bank_of : ℕ → ℕ → ℕ → ℕ → ℕ
principal_in_bank_of total_locked withdrawn_principal staked unbonding =
    if ltb (add128 (add128 withdrawn_principal staked) unbonding) total_locked
    then sub128 (sub128 (sub128 total_locked withdrawn_principal) staked) unbonding
    else 0

unfoldable pub surplus : ℕ → ℕ → ℕ
surplus principal_in_bank bank_balance =
    if ltb principal_in_bank bank_balance then sub128 bank_balance principal_in_bank else 0

unfoldable pub calculate_withdrawn_rewards : Querier → Store → Env → Result ℕ
unfolding staked_amounts principal_in_bank_of surplus
calculate_withdrawn_rewards querier s env = do
  denom ← load (λ t. t.denom) s
  balance ← querier.query_balance env.address denom
  let bank_balance = balance.amount
  total_locked ← load (λ t. t.total_amount) s
  withdrawn_locked ← load (λ t. t.withdrawn_locked) s
  withdrawn_unlocked ← load (λ t. t.withdrawn_unlocked) s
  let withdrawn_principal = add128 withdrawn_locked withdrawn_unlocked
  delegations ← querier.query_all_delegations env.address
  amounts ← staked_amounts s delegations
  let staked = sum128 amounts
  unbonding ← get_unbonding_balance querier env
  let principal_in_bank = principal_in_bank_of total_locked withdrawn_principal staked unbonding
  ok (surplus principal_in_bank bank_balance)
