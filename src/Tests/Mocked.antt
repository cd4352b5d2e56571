-- ===== src/Tests/Mocked.antt =====
-- A concrete `Mock` for the runs: what `cosmwasm_std::testing` gives, on the host of the fixtures.
use gringotts.Base.{
  ℕ, ◌+◌, ◌-◌, ◌*◌, ◌&&◌, ⊤, Option, none, some, List, [], ◌∷◌, String, str_eq, if◌then◌else◌,
}
use gringotts.Error.{Result, ok, panic}
use gringotts.Exec.{Exec}
use gringotts.Cosmos.{Addr, Coin, Delegation, FullDelegation}
use gringotts.Host.{Querier}
use gringotts.State.{Store}
use gringotts.UnitTests.Mock.{Mock}
use gringotts.Tests.Fixtures.{host, querier, blank}

abbrev delegations_of : Addr → List (Addr × FullDelegation) → List Delegation
delegations_of addr [] = []
delegations_of addr ((delegator, d) ∷ rest) =
    let later = delegations_of addr rest in
    if str_eq delegator addr
    then record { validator = d.validator; amount = d.amount } ∷ later
    else later

abbrev delegation_to : Addr → String → List (Addr × FullDelegation) → Option FullDelegation
delegation_to addr validator [] = none
delegation_to addr validator ((delegator, d) ∷ rest) =
    if str_eq delegator addr && str_eq d.validator validator
    then some d
    else delegation_to addr validator rest

abbrev amount_in : String → List Coin → ℕ
amount_in denom [] = 0
amount_in denom (coin ∷ coins) =
    if str_eq coin.denom denom then coin.amount else amount_in denom coins

abbrev update_balance : Addr → List Coin → Querier → Querier
update_balance addr coins q = record q {
  query_balance = λ asked denom.
      if str_eq asked addr
      then ok (record { denom = denom; amount = amount_in denom coins })
      else q.query_balance asked denom;
}

abbrev update_staking : String → List String → List (Addr × FullDelegation) → Querier → Querier
update_staking denom validators delegations q = record q {
  query_all_delegations = λ addr. ok (delegations_of addr delegations);
  query_delegation = λ addr validator. ok (delegation_to addr validator delegations);
}

abbrev pub mock : Mock
mock = record {
  host = host;
  env = record {
    block = record { height = 12345; time = 1571797419879305533 };
    address = "cosmos2contract";
  };
  querier = querier;
  update_staking = update_staking;
  update_balance = update_balance;
  with_custom_handler = λ handler q. record q { query_custom = handler };
  from_binary = λ b. panic;
  from_seconds = λ n. n * 1000000000;
  plus_nanos = λ t n. t + n;
  plus_seconds = λ t n. t + n * 1000000000;
  minus_seconds = λ t n. t - n * 1000000000;
}

-- The outcome of a test on an empty storage.
abbrev pub outcome : Exec Store ⊤ → Result ⊤
outcome test = (test blank).0
