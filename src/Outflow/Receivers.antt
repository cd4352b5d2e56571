-- ===== src/Outflow/Receivers.antt =====
-- What the response of one message sends to an address.
use gringotts.Base.{
  Option-cases, ℕ, zero, suc, ◌≡◌, ◌≢◌, ◌∙◌, some, String, str_eq, str_eq_iff, List, [], ◌∷◌, arith,
  inl, inr,
}
use gringotts.Error.{ok, Result-cases}
use gringotts.Cosmos.{
  Addr, Env, MessageInfo, Response, bank, distribution, send, coins, add_message, new_response,
  withdraw_delegator_reward,
}
use gringotts.Host.{Querier}
use gringotts.State.{Store}
use gringotts.Permission.{authorize_op}
use gringotts.Staking.{
  withdraw_delegation_rewards, get_delegation_rewards, get_all_delegated_validators,
}
use gringotts.Vesting.{distribute_vested}
use gringotts.Contract.Withdraw.{
  execute_initiate_withdraw_reward, send_withdrawn_rewards, withdraw_from_each,
}
use gringotts.Contract.Rewards.{calculate_withdrawn_rewards}
use gringotts.Word.{add128}
use gringotts.Accounting.Payments.{sent, sent-append}
use gringotts.Accounting.Rewards.{withdraw_from_each_reads, send_withdrawn_rewards_reads}

-- The address is neither of those that the store says are paid.
abbrev pub IsStranger : Addr → Store → Type 0
IsStranger a s = (s.unlock_distribution_address ≢ some a) × (s.staking_reward_address ≢ some a)

module _ (a denom : String) where
  sent-bank :
      (r : Response) (to d : String) (n : ℕ)
      → to ≢ a
      → sent a denom (add_message r (bank (send to (coins n d)))).messages ≡ sent a denom r.messages
  sent-bank r to d n other = ground (
    arith,
    sent-append (λ b. str_eq b a) denom r.messages (bank (send to (coins n d)) ∷ []),
    str_eq_iff to a,
  )

  sent-distribution :
      (r : Response) (validator : String)
      → sent a denom (add_message r (distribution (withdraw_delegator_reward validator))).messages
        ≡ sent a denom r.messages
  sent-distribution r validator = ground (
    arith,
    sent-append (λ b. str_eq b a) denom r.messages
        (distribution (withdraw_delegator_reward validator) ∷ []),
  )

  module _ (s : Store) (stranger : IsStranger a s) where
    pub unlocked-sent :
        (n : ℕ) (t : Store) (r : Response)
        → t.unlock_distribution_address ≡ s.unlock_distribution_address
        → distribute_vested n new_response t ≡ ok r
        → sent a denom r.messages ≡ 0
    unfolding distribute_vested
    unlocked-sent n t r same e = elim (Option-cases (t.unlock_distribution_address)) [
      | inl missing ↦ ground arith
      | inr (to, has) ↦ ground (arith, str_eq_iff to a)
    ]

    withdrawn-sent :
        (n : ℕ) (r : Response)
        → (send_withdrawn_rewards n new_response s).0 ≡ ok r
        → sent a denom r.messages ≡ 0
    unfolding send_withdrawn_rewards
    withdrawn-sent zero r e = ground arith
    withdrawn-sent (suc n) r e = elim (Option-cases (s.staking_reward_address)) [
      | inl missing ↦ absurd (ground arith)
      | inr (to, has) ↦ ground (arith, str_eq_iff to a)
    ]

    loop-sent :
        (querier : Querier) (env : Env) (validators : List String) (r r' : Response)
        (total total' : ℕ)
        → (withdraw_from_each querier env validators r total s).0 ≡ ok (r', total')
        → sent a denom r'.messages ≡ sent a denom r.messages
    unfolding withdraw_from_each withdraw_delegation_rewards
    loop-sent querier env [] r r' total total' e = ground arith
    loop-sent querier env (validator ∷ rest) r r' total total' e =
        elim (Result-cases (get_delegation_rewards querier s env validator)) [
          | inr failed ↦ absurd (ground arith)
          | inl (n, got) ↦ elim (Option-cases s.denom) [
            | inl missing ↦ absurd (ground arith)
            | inr (d, has_denom) ↦ elim (Option-cases s.staking_reward_address) [
              | inl missing ↦ absurd (ground arith)
              | inr (to, has) ↦
                  let asked = add_message r (distribution (withdraw_delegator_reward validator)) in
                  let other : to ≢ a = ground arith in
                  loop-sent querier env rest (add_message asked (bank (send to (coins n d)))) r'
                    (add128 total n) total' (ground arith)
                  ∙ sent-bank asked to d n other
                  ∙ sent-distribution r validator
            ]
          ]
        ]

    pub reward-sent :
        (querier : Querier) (env : Env) (info : MessageInfo) (r : Response)
        → (execute_initiate_withdraw_reward querier env info s).0 ≡ ok r
        → sent a denom r.messages ≡ 0
    unfolding execute_initiate_withdraw_reward
    reward-sent querier env info r e = elim (Result-cases (authorize_op s info.sender)) [
      | inr failed ↦ absurd (ground arith)
      | inl (_, is_op) ↦ elim (Result-cases (calculate_withdrawn_rewards querier s env)) [
        | inr failed ↦ absurd (ground arith)
        | inl (n, calculated) ↦ elim (Result-cases (send_withdrawn_rewards n new_response s).0) [
          | inr failed ↦ absurd (ground (arith, send_withdrawn_rewards_reads n new_response s))
          | inl (r', paid) ↦ elim (Result-cases (get_all_delegated_validators querier env)) [
            | inr failed ↦ absurd (ground (arith, send_withdrawn_rewards_reads n new_response s))
            | inl (validators, listed) ↦
                elim (Result-cases (withdraw_from_each querier env validators r' n s).0) [
                  | inr failed ↦ absurd (
                      ground (
                        arith,
                        send_withdrawn_rewards_reads n new_response s,
                        withdraw_from_each_reads querier env s validators r' n,
                      ))
                  | inl ((r'', total), looped) ↦
                      let first = withdrawn-sent n r' paid in
                      let later = loop-sent querier env validators r' r'' n total looped in
                      ground (
                        arith,
                        send_withdrawn_rewards_reads n new_response s,
                        withdraw_from_each_reads querier env s validators r' n,
                        first,
                        later,
                      )
                ]
          ]
        ]
      ]
    ]
