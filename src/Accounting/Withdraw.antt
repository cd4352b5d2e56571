-- ===== src/Accounting/Withdraw.antt =====
-- What the withdrawals do on balanced accounts.
use mathlib.Core.Path.{subst}
use gringotts.Base.{
  ◌⊎◌, ◌≢◌, none, str_eq, str_eq_iff, ℕ, ◌+◌, ◌≤◌, ◌<◌, ◌≡◌, refl, sym, ap, ◌==◌, if◌then◌else◌,
  String, some, [], sum, arith, Bool-cases, inl, inr, Option-cases, ltb,
}
use gringotts.Word.{add128_lem, sum128_lem}
use gringotts.Error.{ok}
use gringotts.Cosmos.{
  Addr, Env, MessageInfo, Response, new_response, add_message, bank, send, coins,
}
use gringotts.Storage.{may_load}
use gringotts.Storage.Keys.{string_key}
use gringotts.Msg.{EmptyStruct}
use gringotts.Permission.{authorize_op, authorize_self_call}
use gringotts.State.{Store}
use gringotts.Vesting.{distribute_vested}
use gringotts.Vesting.Schedule.{amounts, vested, vested-le-sum, consume, sum-consume, All-consume}
use gringotts.Vesting.Refinement.{with_schedule, collect_vested_enough, collect_vested_short}
use gringotts.Contract.Withdraw.{execute_initiate_withdraw_unlocked}
use gringotts.Contract.Internal.{execute_internal_withdraw_locked}
use gringotts.Accounting.Sound.{IsBalanced}

-- The payment of an amount, which is left out when there is nothing to pay.
abbrev pub payment : ℕ → Addr → String → Response
payment amount to denom =
    if amount == 0
    then new_response
    else add_message new_response (bank (send to (coins amount denom)))

module _ (env : Env) (info : MessageInfo) (amount : ℕ) (s : Store) (v : IsBalanced s) where
  -- On balanced accounts, an operator's request that has vested succeeds: it pays the amount to the
  -- distribution address (nothing is sent for the amount 0), takes it off the schedule and adds it to
  -- what was withdrawn unlocked.
  pub withdraw_unlocked_pays :
      {x : EmptyStruct}
      → may_load info.sender s.ops ≡ some x
      → amount ≤ vested env.block.time v.schedule
      → execute_initiate_withdraw_unlocked env info amount s ≡ (
        ok (payment amount v.unlock_address v.denom),
        record (with_schedule (consume amount v.schedule) s) {
          withdrawn_unlocked = some (v.unlocked + amount);
        },
      )
  unfolding execute_initiate_withdraw_unlocked distribute_vested
  withdraw_unlocked_pays is_op enough =
      let collected =
        collect_vested_enough env.block.time amount v.schedule s v.has_timestamps v.has_amounts
          (omega arith) v.positive enough in
      let covered = vested-le-sum env.block.time v.schedule in
      rw (is_op, authorize_op, collected)
        (ground (
          arith,
          v.has_unlocked,
          v.has_unlock_address,
          v.has_denom,
          add128_lem v.unlocked amount (omega arith),
        ))

  -- A caller who is no operator, or a request beyond what has vested, changes nothing.
  pub withdraw_unlocked_refused :
      (vested env.block.time v.schedule < amount) ⊎ (may_load info.sender s.ops ≡ none)
      → (execute_initiate_withdraw_unlocked env info amount s).1 ≡ s
  unfolding execute_initiate_withdraw_unlocked
  withdraw_unlocked_refused (inl short) = ground (
    arith,
    collect_vested_short env.block.time amount v.schedule s v.has_timestamps v.has_amounts
        (omega arith) short,
  )
  withdraw_unlocked_refused (inr outsider) = ground arith

  unfoldable pub paid_unlocked :
      amount ≤ vested env.block.time v.schedule
      → IsBalanced (record (with_schedule (consume amount v.schedule) s) {
        withdrawn_unlocked = some (v.unlocked + amount);
      })
  paid_unlocked enough =
      let covered = vested-le-sum env.block.time v.schedule in
      record {
        denom = v.denom;
        schedule = consume amount v.schedule;
        total = v.total;
        unlock_address = v.unlock_address;
        reward_address = v.reward_address;
        rewards = v.rewards;
        unlocked = v.unlocked + amount;
        locked = v.locked;
        has_denom = v.has_denom;
        has_timestamps = refl;
        has_amounts = refl;
        has_total = v.has_total;
        has_unlock_address = v.has_unlock_address;
        has_reward_address = v.has_reward_address;
        has_rewards = v.has_rewards;
        has_unlocked = refl;
        has_locked = v.has_locked;
        positive = All-consume amount v.schedule v.positive;
        balance = omega (arith, sum-consume amount v.schedule);
        total_u128 = v.total_u128;
      }

  -- The request is paid, or nothing is written.
  pub withdraw_unlocked-cases :
      ((amount ≤ vested env.block.time v.schedule)
        × ((execute_initiate_withdraw_unlocked env info amount s).1
            ≡ record (with_schedule (consume amount v.schedule) s) {
              withdrawn_unlocked = some (v.unlocked + amount);
            }))
      ⊎ ((execute_initiate_withdraw_unlocked env info amount s).1 ≡ s)
  withdraw_unlocked-cases = elim (Option-cases (may_load info.sender s.ops)) [
    | inl outsider ↦ inr (withdraw_unlocked_refused (inr outsider))
    | inr (x, is_op) ↦ elim (Bool-cases (ltb (vested env.block.time v.schedule) amount)) [
      | inl short ↦ inr (withdraw_unlocked_refused (inl (ground arith)))
      | inr enough ↦
          let le : amount ≤ vested env.block.time v.schedule = ground arith in
          inl (le, ap (λ r. r.1) (withdraw_unlocked_pays is_op le))
    ]
  ]

  -- Whatever comes of the request, the accounts balance afterwards.
  pub withdraw_unlocked-IsBalanced :
      IsBalanced (execute_initiate_withdraw_unlocked env info amount s).1
  withdraw_unlocked-IsBalanced = elim withdraw_unlocked-cases [
    | inl (le, paid) ↦ subst (λ t. IsBalanced t) (sym paid) (paid_unlocked le)
    | inr same ↦ subst (λ t. IsBalanced t) (sym same) v
  ]

module _ (env : Env) (info : MessageInfo) (dst : Addr) (s : Store) (v : IsBalanced s) where
  -- On balanced accounts, called by the contract itself, the emergency withdrawal sends all that is
  -- still to vest, empties the schedule and adds the amount to what was withdrawn locked.
  pub withdraw_locked_pays :
      env.address ≡ info.sender
      → execute_internal_withdraw_locked env info dst s ≡ (
        ok (add_message new_response (bank (send dst (coins (sum (amounts v.schedule)) v.denom)))),
        record (with_schedule [] s) {
          withdrawn_locked = some (v.locked + sum (amounts v.schedule));
        },
      )
  unfolding execute_internal_withdraw_locked authorize_self_call
  withdraw_locked_pays self = ground (
    arith,
    str_eq_iff env.address info.sender,
    v.has_amounts,
    v.has_locked,
    v.has_denom,
    sum128_lem (amounts v.schedule) (omega arith),
    add128_lem v.locked (sum (amounts v.schedule)) (omega arith),
  )

  pub withdraw_locked_refused :
      env.address ≢ info.sender → (execute_internal_withdraw_locked env info dst s).1 ≡ s
  unfolding execute_internal_withdraw_locked authorize_self_call
  withdraw_locked_refused other = ground (arith, str_eq_iff env.address info.sender)

  unfoldable pub paid_locked : IsBalanced (record (with_schedule [] s) {
    withdrawn_locked = some (v.locked + sum (amounts v.schedule));
  })
  paid_locked = record {
    denom = v.denom;
    schedule = [];
    total = v.total;
    unlock_address = v.unlock_address;
    reward_address = v.reward_address;
    rewards = v.rewards;
    unlocked = v.unlocked;
    locked = v.locked + sum (amounts v.schedule);
    has_denom = v.has_denom;
    has_timestamps = refl;
    has_amounts = refl;
    has_total = v.has_total;
    has_unlock_address = v.has_unlock_address;
    has_reward_address = v.has_reward_address;
    has_rewards = v.has_rewards;
    has_unlocked = v.has_unlocked;
    has_locked = refl;
    positive = tt;
    balance = omega arith;
    total_u128 = v.total_u128;
  }

  -- The contract's call pays, and another writes nothing.
  pub withdraw_locked-cases :
      ((execute_internal_withdraw_locked env info dst s).1 ≡ record (with_schedule [] s) {
        withdrawn_locked = some (v.locked + sum (amounts v.schedule));
      })
      ⊎ ((execute_internal_withdraw_locked env info dst s).1 ≡ s)
  withdraw_locked-cases = elim (Bool-cases (str_eq env.address info.sender)) [
    | inl same ↦
        let self = (str_eq_iff env.address info.sender).0 same in
        inl (ap (λ r. r.1) (withdraw_locked_pays self))
    | inr other ↦
        inr (withdraw_locked_refused (λ e. cc (other, (str_eq_iff env.address info.sender).1 e)))
  ]

  pub withdraw_locked-IsBalanced : IsBalanced (execute_internal_withdraw_locked env info dst s).1
  withdraw_locked-IsBalanced = elim withdraw_locked-cases [
    | inl paid ↦ subst (λ t. IsBalanced t) (sym paid) paid_locked
    | inr same ↦ subst (λ t. IsBalanced t) (sym same) v
  ]
