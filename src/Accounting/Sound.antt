-- ===== src/Accounting/Sound.antt =====
-- The invariant of the accounts.
use gringotts.Base.{ℕ, String, ◌+◌, ◌<◌, ◌≡◌, ◌∙◌, ap, refl, some, sum, All}
use gringotts.Word.{u128_mod}
use gringotts.Cosmos.{Addr}
use gringotts.State.{Store}
use gringotts.Vesting.Schedule.{Schedule, timestamps, amounts}
use gringotts.Accounting.Frame.{Money, money}

-- The cells of the money are filled; the two lists are a schedule of positive amounts; and what was
-- paid out, with what is still to vest, is the total that was locked, a u128.
pub record Balanced (m : Money) : Type 0 where
  pub denom : String
  pub schedule : Schedule
  pub total : ℕ
  pub unlock_address : Addr
  pub reward_address : Addr
  pub rewards : ℕ
  pub unlocked : ℕ
  pub locked : ℕ
  pub has_denom : m.denom ≡ some denom
  pub has_timestamps : m.vesting_timestamps ≡ some (timestamps schedule)
  pub has_amounts : m.vesting_amounts ≡ some (amounts schedule)
  pub has_total : m.total_amount ≡ some total
  pub has_unlock_address : m.unlock_distribution_address ≡ some unlock_address
  pub has_reward_address : m.staking_reward_address ≡ some reward_address
  pub has_rewards : m.withdrawn_staking_rewards ≡ some rewards
  pub has_unlocked : m.withdrawn_unlocked ≡ some unlocked
  pub has_locked : m.withdrawn_locked ≡ some locked
  pub positive : All (λ a. 0 < a) (amounts schedule)
  pub balance : unlocked + locked + sum (amounts schedule) ≡ total
  pub total_u128 : total < u128_mod

abbrev pub IsBalanced : Store → Type 0
IsBalanced s = Balanced (money s)

-- The same cells hold the same accounts.
abbrev pub with_money : {m m' : Money} → m' ≡ m → Balanced m → Balanced m'
with_money same v = record {
  denom = v.denom;
  schedule = v.schedule;
  total = v.total;
  unlock_address = v.unlock_address;
  reward_address = v.reward_address;
  rewards = v.rewards;
  unlocked = v.unlocked;
  locked = v.locked;
  has_denom = ap (λ x. x.denom) same ∙ v.has_denom;
  has_timestamps = ap (λ x. x.vesting_timestamps) same ∙ v.has_timestamps;
  has_amounts = ap (λ x. x.vesting_amounts) same ∙ v.has_amounts;
  has_total = ap (λ x. x.total_amount) same ∙ v.has_total;
  has_unlock_address = ap (λ x. x.unlock_distribution_address) same ∙ v.has_unlock_address;
  has_reward_address = ap (λ x. x.staking_reward_address) same ∙ v.has_reward_address;
  has_rewards = ap (λ x. x.withdrawn_staking_rewards) same ∙ v.has_rewards;
  has_unlocked = ap (λ x. x.withdrawn_unlocked) same ∙ v.has_unlocked;
  has_locked = ap (λ x. x.withdrawn_locked) same ∙ v.has_locked;
  positive = v.positive;
  balance = v.balance;
  total_u128 = v.total_u128;
}

-- The cells that may be written with no effect on the balance.
module _ (s : Store) (v : IsBalanced s) where
  unfoldable pub with_rewards :
      (n : ℕ) → IsBalanced (record s { withdrawn_staking_rewards = some n })
  with_rewards n = record {
    denom = v.denom;
    schedule = v.schedule;
    total = v.total;
    unlock_address = v.unlock_address;
    reward_address = v.reward_address;
    rewards = n;
    unlocked = v.unlocked;
    locked = v.locked;
    has_denom = v.has_denom;
    has_timestamps = v.has_timestamps;
    has_amounts = v.has_amounts;
    has_total = v.has_total;
    has_unlock_address = v.has_unlock_address;
    has_reward_address = v.has_reward_address;
    has_rewards = refl;
    has_unlocked = v.has_unlocked;
    has_locked = v.has_locked;
    positive = v.positive;
    balance = v.balance;
    total_u128 = v.total_u128;
  }

  unfoldable pub with_unlock_address :
      (a : Addr) → IsBalanced (record s { unlock_distribution_address = some a })
  with_unlock_address a = record {
    denom = v.denom;
    schedule = v.schedule;
    total = v.total;
    unlock_address = a;
    reward_address = v.reward_address;
    rewards = v.rewards;
    unlocked = v.unlocked;
    locked = v.locked;
    has_denom = v.has_denom;
    has_timestamps = v.has_timestamps;
    has_amounts = v.has_amounts;
    has_total = v.has_total;
    has_unlock_address = refl;
    has_reward_address = v.has_reward_address;
    has_rewards = v.has_rewards;
    has_unlocked = v.has_unlocked;
    has_locked = v.has_locked;
    positive = v.positive;
    balance = v.balance;
    total_u128 = v.total_u128;
  }

  unfoldable pub with_reward_address :
      (a : Addr) → IsBalanced (record s { staking_reward_address = some a })
  with_reward_address a = record {
    denom = v.denom;
    schedule = v.schedule;
    total = v.total;
    unlock_address = v.unlock_address;
    reward_address = a;
    rewards = v.rewards;
    unlocked = v.unlocked;
    locked = v.locked;
    has_denom = v.has_denom;
    has_timestamps = v.has_timestamps;
    has_amounts = v.has_amounts;
    has_total = v.has_total;
    has_unlock_address = v.has_unlock_address;
    has_reward_address = refl;
    has_rewards = v.has_rewards;
    has_unlocked = v.has_unlocked;
    has_locked = v.has_locked;
    positive = v.positive;
    balance = v.balance;
    total_u128 = v.total_u128;
  }
