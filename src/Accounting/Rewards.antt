-- ===== src/Accounting/Rewards.antt =====
-- The withdrawal of rewards writes one cell, the count of the rewards withdrawn.
use mathlib.Core.Path.{subst}
use gringotts.Base.{⊤, ℕ, zero, suc, ◌≡◌, inl, inr, refl, sym, String, List, [], ◌∷◌, some, arith}
use gringotts.Word.{add128}
use gringotts.Error.{Result-cases}
use gringotts.Cosmos.{Env, MessageInfo, Response, new_response}
use gringotts.Host.{Querier}
use gringotts.Exec.{Exec, reads, pure}
use gringotts.Permission.{authorize_op}
use gringotts.Contract.Rewards.{calculate_withdrawn_rewards}
use gringotts.State.{Store, load, update}
use gringotts.Exec.Keeps.{Keeps, Keeps-bind, Keeps-reads, Keeps-pure}
use gringotts.Staking.{
  get_all_delegated_validators, get_delegation_rewards, withdraw_delegation_rewards,
}
use gringotts.Contract.Withdraw.{
  send_withdrawn_rewards, withdraw_from_each, execute_initiate_withdraw_reward,
}

pub send_withdrawn_rewards_reads :
    (n : ℕ) (response : Response) (s : Store) → (send_withdrawn_rewards n response s).1 ≡ s
unfolding send_withdrawn_rewards
send_withdrawn_rewards_reads zero response s = refl
send_withdrawn_rewards_reads (suc n) response s = ground arith

module _ (querier : Querier) (env : Env) (s : Store) where
  pub withdraw_from_each_reads :
      (validators : List String) (response : Response) (total : ℕ)
      → (withdraw_from_each querier env validators response total s).1 ≡ s
  unfolding withdraw_from_each
  withdraw_from_each_reads [] response total = refl
  withdraw_from_each_reads (validator ∷ rest) response total =
      elim (Result-cases (get_delegation_rewards querier s env validator)) [
        | inl (n, e) ↦ elim (Result-cases (withdraw_delegation_rewards s response validator n)) [
          | inl (response', e') ↦
              rw (e, e') (withdraw_from_each_reads rest response' (add128 total n))
          | inr (inl (_, e')) ↦ rw (e, e')
          | inr (inr e') ↦ rw (e, e')
        ]
        | inr (inl (_, e)) ↦ rw e
        | inr (inr e) ↦ rw e
      ]

-- A call that writes nothing keeps everything.
of_same :
    {A : Type 0} {P : Store → Type 0} (m : Exec Store A) → ((s : Store) → (m s).1 ≡ s) → Keeps P m
of_same {P} m same = record { at = λ s v. subst P (sym (same s)) v }

-- What the write of that count keeps, the whole handler keeps.
module _ {P : Store → Type 0}
    (counted : (n : ℕ) (s : Store)
      → P s
      → P (record s { withdrawn_staking_rewards = some n })) where
  update-Keeps :
      (total : ℕ)
      → Keeps P (
          update
            (λ s. s.withdrawn_staking_rewards)
            (λ new s. record s { withdrawn_staking_rewards = some new })
            (λ old. add128 old total))
  update-Keeps total =
      Keeps-bind {A = ℕ} (reads (load (λ s. s.withdrawn_staking_rewards))) _ (Keeps-reads _)
        (λ old. record { at = counted (add128 old total) })

  pub withdraw_reward-Keeps :
      (querier : Querier) (env : Env) (info : MessageInfo)
      → Keeps P (execute_initiate_withdraw_reward querier env info)
  unfolding execute_initiate_withdraw_reward
  withdraw_reward-Keeps querier env info =
      Keeps-bind {A = ⊤} (reads (λ s. authorize_op s info.sender)) _ (Keeps-reads _) λ _.
        Keeps-bind {A = ℕ} (reads (λ s. calculate_withdrawn_rewards querier s env)) _
          (Keeps-reads _)
          λ withdrawn.
            Keeps-bind {A = Response} (send_withdrawn_rewards withdrawn new_response) _
              (of_same _ (send_withdrawn_rewards_reads withdrawn new_response))
              λ response.
                Keeps-bind {A = List String} (reads (λ s. get_all_delegated_validators querier env))
                  _ (Keeps-reads _)
                  λ validators.
                    Keeps-bind {A = Response × ℕ}
                      (withdraw_from_each querier env validators response withdrawn) _
                      (of_same _
                        (λ s. withdraw_from_each_reads querier env s validators response withdrawn))
                      λ paid.
                        Keeps-bind {A = ⊤} _ (λ _. pure paid.0) (update-Keeps paid.1)
                          (λ _. Keeps-pure paid.0)
