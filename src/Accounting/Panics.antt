-- ===== src/Accounting/Panics.antt =====
-- Where a handler could panic: the slices of `collect_vested`, and the `unwrap` of the denomination.
use mathlib.Core.Path.{subst}
use gringotts.Base.{⊤, ℕ, zero, suc, ◌≡◌, ◌≢◌, refl, sym, String, List, [], ◌∷◌, arith, inl, inr}
use gringotts.Error.{Result, ok, err, panic, Result-cases}
use gringotts.Exec.{Exec, lift, reads, ◌>>=◌}
use gringotts.Cosmos.{Addr, Env, MessageInfo, Response, new_response}
use gringotts.Host.{Querier}
use gringotts.Msg.{stakingext, unbonding_delegations, SeiQueryWrapper}
use gringotts.Storage.Keys.{string_key}
use gringotts.State.{Store}
use gringotts.Permission.{authorize_op}
use gringotts.Staking.{
  get_all_delegated_validators, get_delegation_rewards, get_unbonding_balance,
  withdraw_delegation_rewards, rewards_of,
}
use gringotts.Contract.Rewards.{calculate_withdrawn_rewards}
use gringotts.Contract.Withdraw.{
  send_withdrawn_rewards, withdraw_from_each, execute_initiate_withdraw_reward,
}
use gringotts.Accounting.Rewards.{send_withdrawn_rewards_reads, withdraw_from_each_reads}
use gringotts.Accounting.Surplus.{staked_amounts_lem}
use gringotts.Accounting.Sound.{IsBalanced}

-- The chain answers a query or returns an error.
pub record IsAnswering (querier : Querier) : Type 0 where
  pub balance_lem : (a : Addr) (denom : String) → querier.query_balance a denom ≢ panic
  pub delegations_lem : (a : Addr) → querier.query_all_delegations a ≢ panic
  pub delegation_lem :
      (a : Addr) (validator : String) → querier.query_delegation a validator ≢ panic
  pub custom_lem : (q : SeiQueryWrapper) → querier.query_custom q ≢ panic

module _ {A B : Type 0} (s : Store) (next : A → Exec Store B) where
  resumed_returns :
      (outcome : Result A) (t : Store)
      → t ≡ s
      → outcome ≢ panic
      → ((a : A) → (next a s).0 ≢ panic)
      → ((lift outcome >>= next) t).0 ≢ panic
  resumed_returns (ok a) t same fine rest = subst (λ x. (next a x).0 ≢ panic) (sym same) (rest a)
  resumed_returns (err e) t same fine rest = λ e'. cc e'
  resumed_returns panic t same fine rest = absurd (fine refl)

bind_returns :
    {A B : Type 0} (s : Store) (m : Exec Store A) (next : A → Exec Store B)
    → (m s).1 ≡ s
    → (m s).0 ≢ panic
    → ((a : A) → (next a s).0 ≢ panic)
    → ((m >>= next) s).0 ≢ panic
bind_returns s m next same fine rest = resumed_returns s next (m s).0 (m s).1 same fine rest

module _ (querier : Querier) (answers : IsAnswering querier) (env : Env) (s : Store)
    (v : IsBalanced s) where
  calculate_returns : calculate_withdrawn_rewards querier s env ≢ panic
  unfolding calculate_withdrawn_rewards get_unbonding_balance
  calculate_returns = elim (Result-cases (querier.query_all_delegations env.address)) [
    | inl (dels, e) ↦ ground (
      arith,
      e,
      v.has_denom,
      v.has_total,
      v.has_locked,
      v.has_unlocked,
      staked_amounts_lem s v.denom v.has_denom dels,
      answers.balance_lem env.address v.denom,
      answers.custom_lem
          (record { route = stakingext; query_data = unbonding_delegations env.address }),
    )
    | inr failed ↦ ground (
      arith,
      failed,
      v.has_denom,
      v.has_total,
      v.has_locked,
      v.has_unlocked,
      answers.balance_lem env.address v.denom,
      answers.delegations_lem env.address,
    )
  ]

  delegation_rewards_returns :
      (validator : String) → get_delegation_rewards querier s env validator ≢ panic
  unfolding get_delegation_rewards rewards_of
  delegation_rewards_returns validator =
      ground (arith, v.has_denom, answers.delegation_lem env.address validator)

  validators_return : get_all_delegated_validators querier env ≢ panic
  unfolding get_all_delegated_validators
  validators_return = ground (arith, answers.delegations_lem env.address)

  send_returns : (n : ℕ) (r : Response) → (send_withdrawn_rewards n r s).0 ≢ panic
  unfolding send_withdrawn_rewards
  send_returns zero r = λ e. cc e
  send_returns (suc n) r = ground (arith, v.has_denom, v.has_reward_address)

  withdrawal_returns :
      (r : Response) (validator : String) (n : ℕ)
      → withdraw_delegation_rewards s r validator n ≢ panic
  unfolding withdraw_delegation_rewards
  withdrawal_returns r validator n = ground (arith, v.has_denom, v.has_reward_address)

  withdraw_from_each_returns :
      (validators : List String) (r : Response) (total : ℕ)
      → (withdraw_from_each querier env validators r total s).0 ≢ panic
  unfolding withdraw_from_each
  withdraw_from_each_returns [] r total = λ e. cc e
  withdraw_from_each_returns (validator ∷ rest) r total =
      bind_returns {A = ℕ} s (reads (λ t. get_delegation_rewards querier t env validator)) _ refl
        (delegation_rewards_returns validator)
        λ n.
          bind_returns {A = Response} s (reads (λ t. withdraw_delegation_rewards t r validator n)) _
            refl (withdrawal_returns r validator n) λ r'. withdraw_from_each_returns rest r' _

  pub reward_returns :
      (info : MessageInfo) → (execute_initiate_withdraw_reward querier env info s).0 ≢ panic
  unfolding execute_initiate_withdraw_reward authorize_op
  reward_returns info =
      bind_returns {A = ⊤} s (reads (λ t. authorize_op t info.sender)) _ refl (ground arith) λ _.
        bind_returns {A = ℕ} s (reads (λ t. calculate_withdrawn_rewards querier t env)) _ refl
          calculate_returns
          λ withdrawn.
            bind_returns {A = Response} s (send_withdrawn_rewards withdrawn new_response) _
              (send_withdrawn_rewards_reads withdrawn new_response s)
              (send_returns withdrawn new_response)
              λ response.
                bind_returns {A = List String} s
                  (reads (λ t. get_all_delegated_validators querier env)) _ refl validators_return
                  λ validators.
                    bind_returns {A = Response × ℕ} s
                      (withdraw_from_each querier env validators response withdrawn) _
                      (withdraw_from_each_reads querier env s validators response withdrawn)
                      (withdraw_from_each_returns validators response withdrawn)
                      λ paid. ground (arith, v.has_rewards)
