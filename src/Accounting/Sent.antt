-- ===== src/Accounting/Sent.antt =====
-- The count of withdrawn rewards is what was sent.
use mathlib.Core.Path.{subst}
use gringotts.Base.{
  Bool, true, ◌∙◌, ℕ, zero, suc, ◌+◌, ◌%◌, ◌≡◌, refl, ap, some, String, str_eq, str_eq_iff, List,
  [], ◌∷◌, arith, inl, inr,
}
use gringotts.Word.{u128_mod, add128}
use gringotts.Error.{ok, Result-cases}
use gringotts.Cosmos.{
  distribution, withdraw_delegator_reward, Addr, Env, MessageInfo, bank, send, Response,
  new_response, add_message, coins,
}
use gringotts.Host.{Querier}
use gringotts.State.{Store}
use gringotts.Permission.{authorize_op}
use gringotts.Contract.Rewards.{calculate_withdrawn_rewards}
use gringotts.Accounting.Rewards.{withdraw_from_each_reads}
use gringotts.Staking.{
  get_all_delegated_validators, get_delegation_rewards, withdraw_delegation_rewards,
}
use gringotts.Contract.Withdraw.{
  send_withdrawn_rewards, withdraw_from_each, execute_initiate_withdraw_reward,
}
use gringotts.Accounting.Payments.{sent_where, sent, sent-append}
use gringotts.Accounting.Sound.{IsBalanced}

-- What both sides of an equation of wrapped sums hold cancels.
wrap_cancel :
    (t t' n a b : ℕ)
    → (t' + (a + n)) % u128_mod ≡ (add128 t n + b) % u128_mod
    → (t' + a) % u128_mod ≡ (t + b) % u128_mod
unfolding add128
wrap_cancel t t' n a b e = omega arith

wrap_total :
    (old total n a b : ℕ)
    → a ≡ n
    → (total + a) % u128_mod ≡ (n + b) % u128_mod
    → add128 old total ≡ (old + b) % u128_mod
unfolding add128
wrap_total old total n a b e e' = omega arith

module _ (s : Store) (v : IsBalanced s) (P : Addr → Bool) (hit : P v.reward_address ≡ true) where
  abbrev rewards_in : Response → ℕ
  rewards_in r = sent_where P v.denom r.messages

  -- A payment to the address of the rewards.
  abbrev pay : ℕ → Response → Response
  pay n r = add_message r (bank (send v.reward_address (coins n v.denom)))

  rewards_in-pay : (n : ℕ) (r : Response) → rewards_in (pay n r) ≡ rewards_in r + n
  rewards_in-pay n r =
      let last = bank (send v.reward_address (coins n v.denom)) ∷ [] in
      ground (arith, sent-append P v.denom r.messages last, str_eq_iff v.denom v.denom, hit)

  send_withdrawn_rewards-sent :
      (n : ℕ) (r : Response)
      → (r' : Response) × (send_withdrawn_rewards n r s ≡ (ok r', s))
        × (rewards_in r' ≡ rewards_in r + n)
  unfolding send_withdrawn_rewards
  send_withdrawn_rewards-sent zero r = (r, refl, omega arith)
  send_withdrawn_rewards-sent (suc n) r =
      (pay (suc n) r, ground (arith, v.has_denom, v.has_reward_address), rewards_in-pay (suc n) r)

  module _ (querier : Querier) (env : Env) where
    -- The loop adds to its total what it adds to the messages.
    withdraw_from_each-sent :
        (validators : List String) (r r' : Response) (total total' : ℕ)
        → (withdraw_from_each querier env validators r total s).0 ≡ ok (r', total')
        → (total' + rewards_in r) % u128_mod ≡ (total + rewards_in r') % u128_mod
    unfolding withdraw_from_each withdraw_delegation_rewards add128
    withdraw_from_each-sent [] r r' total total' e = ground arith
    withdraw_from_each-sent (validator ∷ rest) r r' total total' e =
        elim (Result-cases (get_delegation_rewards querier s env validator)) [
          | inr failed ↦ absurd (ground arith)
          | inl (n, got) ↦
              let r'' = add_message r (distribution (withdraw_delegator_reward validator)) in
              let same : rewards_in r'' ≡ rewards_in r = ground (
                arith,
                sent-append P v.denom r.messages
                    (distribution (withdraw_delegator_reward validator) ∷ []),
              ) in
              let later =
                withdraw_from_each-sent rest (pay n r'') r' (add128 total n) total'
                  (ground (arith, v.has_denom, v.has_reward_address)) in
              wrap_cancel total total' n (rewards_in r) (rewards_in r') (
                subst (λ k. (total' + k) % u128_mod ≡ (add128 total n + rewards_in r') % u128_mod)
                  (rewards_in-pay n r'' ∙ ap (λ k. k + n) same) later)
        ]

  -- The same for any set of addresses that holds the address of the rewards.
  pub withdraw_reward-sent_where :
      (querier : Querier) (env : Env) (info : MessageInfo) {r : Response}
      → (execute_initiate_withdraw_reward querier env info s).0 ≡ ok r
      → (execute_initiate_withdraw_reward querier env info s).1
        ≡ record s { withdrawn_staking_rewards = some ((v.rewards + rewards_in r) % u128_mod) }
  unfolding execute_initiate_withdraw_reward
  withdraw_reward-sent_where querier env info {r} e =
      elim (Result-cases (authorize_op s info.sender)) [
        | inr failed ↦ absurd (ground arith)
        | inl (_, is_op) ↦ elim (Result-cases (calculate_withdrawn_rewards querier s env)) [
          | inr failed ↦ absurd (ground arith)
          | inl (n, calculated) ↦
              let (r', paid, first) = send_withdrawn_rewards-sent n new_response in
              elim (Result-cases (get_all_delegated_validators querier env)) [
                | inr failed ↦ absurd (ground arith)
                | inl (validators, listed) ↦
                    elim (Result-cases (withdraw_from_each querier env validators r' n s).0) [
                      | inr failed ↦
                          absurd
                            (ground (arith, withdraw_from_each_reads querier env s validators r' n))
                      | inl ((r'', total), looped) ↦
                          let counted =
                            withdraw_from_each-sent querier env validators r' r'' n total looped in
                          let same = withdraw_from_each_reads querier env s validators r' n in
                          let total_lem =
                            wrap_total v.rewards total n (rewards_in r') (rewards_in r'')
                              (omega (arith, first)) counted in
                          ground (arith, paid, same, v.has_rewards, total_lem)
                    ]
              ]
        ]
      ]

-- On balanced accounts, a withdrawal of rewards that succeeds adds to the count of withdrawn rewards
-- what its messages send to the address of the rewards, modulo 2^128, and changes nothing else.
pub withdraw_reward-sent :
    (s : Store) (v : IsBalanced s) (querier : Querier) (env : Env) (info : MessageInfo)
    {r : Response}
    → (execute_initiate_withdraw_reward querier env info s).0 ≡ ok r
    → (execute_initiate_withdraw_reward querier env info s).1 ≡ record s {
      withdrawn_staking_rewards =
          some ((v.rewards + sent v.reward_address v.denom r.messages) % u128_mod);
    }
withdraw_reward-sent s v =
    withdraw_reward-sent_where s v (λ a. str_eq a v.reward_address)
      ((str_eq_iff v.reward_address v.reward_address).1 refl)
