-- ===== src/UnitTests/Equality.antt =====
-- `PartialEq`, as the tests compare values.
use gringotts.Base.{
  ℕ, Bool, true, false, ◌&&◌, ◌==◌ as nat_beq, str_eq, String, Option, none, some, List, [], ◌∷◌,
}
use gringotts.Error.{StdError, ThresholdError, ContractError}
use gringotts.Cosmos.{
  Coin, BankMsg, StakingMsg, DistributionMsg, WasmMsg, VoteOption, GovMsg, CosmosMsg, Response,
}
use gringotts.State.{ContractVersion}

pub record Eq (A : Type 0) : Type 0 where
  pub eq : A → A → Bool

infix 50 ◌==◌
abbrev pub ◌==◌ : {A : Type 0} ⦃e : Eq A⦄ → A → A → Bool
◌==◌ ⦃e⦄ = e.eq

instance abbrev pub nat_eq : Eq ℕ
nat_eq = record { eq = nat_beq }

instance abbrev pub string_eq : Eq String
string_eq = record { eq = str_eq }

instance abbrev pub unit_eq : Eq (Unit {0})
unit_eq = record { eq = λ a b. true }

module _ {A : Type 0} ⦃e : Eq A⦄ where
  abbrev eq_list : List A → List A → Bool
  eq_list [] [] = true
  eq_list (x ∷ xs) (y ∷ ys) = x == y && eq_list xs ys
  eq_list _ _ = false

  instance abbrev pub list_eq : Eq (List A)
  list_eq = record { eq = eq_list }

  abbrev eq_option : Option A → Option A → Bool
  eq_option none none = true
  eq_option (some x) (some y) = x == y
  eq_option _ _ = false

  instance abbrev pub option_eq : Eq (Option A)
  option_eq = record { eq = eq_option }

module _ {A B : Type 0} ⦃e : Eq A⦄ ⦃f : Eq B⦄ where
  abbrev eq_pair : A × B → A × B → Bool
  eq_pair (a, b) (c, d) = a == c && b == d

  instance abbrev pub pair_eq : Eq (A × B)
  pair_eq = record { eq = eq_pair }

abbrev eq_std : StdError → StdError → Bool
eq_std StdError.not_found StdError.not_found = true
eq_std (StdError.generic_err s) (StdError.generic_err t) = s == t
eq_std (StdError.host s) (StdError.host t) = s == t
eq_std _ _ = false

-- `ContractError` derives its equality.
abbrev eq_error : ContractError → ContractError → Bool
eq_error (ContractError.std e) (ContractError.std f) = eq_std e f
eq_error (ContractError.threshold ThresholdError.invalid_threshold)
      (ContractError.threshold ThresholdError.invalid_threshold) =
    true
eq_error ContractError.zero_weight ContractError.zero_weight = true
eq_error ContractError.unreachable_weight ContractError.unreachable_weight = true
eq_error ContractError.no_voters ContractError.no_voters = true
eq_error ContractError.unauthorized ContractError.unauthorized = true
eq_error ContractError.not_open ContractError.not_open = true
eq_error ContractError.expired ContractError.expired = true
eq_error ContractError.not_expired ContractError.not_expired = true
eq_error ContractError.wrong_expiration ContractError.wrong_expiration = true
eq_error ContractError.already_voted ContractError.already_voted = true
eq_error ContractError.wrong_execute_status ContractError.wrong_execute_status = true
eq_error ContractError.wrong_close_status ContractError.wrong_close_status = true
eq_error ContractError.no_admins ContractError.no_admins = true
eq_error ContractError.no_ops ContractError.no_ops = true
eq_error (ContractError.invalid_tranche s) (ContractError.invalid_tranche t) = s == t
eq_error ContractError.no_sufficient_delegation_reward
      ContractError.no_sufficient_delegation_reward =
    true
eq_error (ContractError.sem_ver s) (ContractError.sem_ver t) = s == t
eq_error ContractError.no_sufficient_unlocked_tokens ContractError.no_sufficient_unlocked_tokens =
    true
eq_error _ _ = false

instance abbrev pub error_eq : Eq ContractError
error_eq = record { eq = eq_error }

instance abbrev pub coin_eq : Eq Coin
coin_eq = record { eq = λ a b. a.denom == b.denom && a.amount == b.amount }

abbrev eq_vote_option : VoteOption → VoteOption → Bool
eq_vote_option VoteOption.yes_option VoteOption.yes_option = true
eq_vote_option VoteOption.no_option VoteOption.no_option = true
eq_vote_option VoteOption.abstain_option VoteOption.abstain_option = true
eq_vote_option VoteOption.no_with_veto VoteOption.no_with_veto = true
eq_vote_option _ _ = false

abbrev eq_staking : StakingMsg → StakingMsg → Bool
eq_staking (StakingMsg.delegate v c) (StakingMsg.delegate w d) = v == w && c == d
eq_staking (StakingMsg.redelegate u v c) (StakingMsg.redelegate t w d) = u == t && v == w && c == d
eq_staking (StakingMsg.undelegate v c) (StakingMsg.undelegate w d) = v == w && c == d
eq_staking _ _ = false

abbrev eq_message : CosmosMsg → CosmosMsg → Bool
eq_message (CosmosMsg.bank (BankMsg.send a c)) (CosmosMsg.bank (BankMsg.send b d)) =
    a == b && c == d
eq_message (CosmosMsg.staking m) (CosmosMsg.staking n) = eq_staking m n
eq_message (CosmosMsg.distribution (DistributionMsg.withdraw_delegator_reward v))
      (CosmosMsg.distribution (DistributionMsg.withdraw_delegator_reward w)) =
    v == w
eq_message (CosmosMsg.wasm (WasmMsg.execute a m c)) (CosmosMsg.wasm (WasmMsg.execute b n d)) =
    a == b && m == n && c == d
eq_message (CosmosMsg.gov (GovMsg.vote i v)) (CosmosMsg.gov (GovMsg.vote j w)) =
    i == j && eq_vote_option v w
eq_message _ _ = false

instance abbrev pub message_eq : Eq CosmosMsg
message_eq = record { eq = eq_message }

instance abbrev pub response_eq : Eq Response
response_eq = record { eq = λ a b. a.messages == b.messages && a.attributes == b.attributes }

instance abbrev pub version_eq : Eq ContractVersion
version_eq = record { eq = λ a b. a.contract == b.contract && a.version == b.version }
