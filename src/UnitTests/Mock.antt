-- ===== src/UnitTests/Mock.antt =====
-- What the tests are run with, and their assertions. `cosmwasm_std::testing` and the arithmetic of
-- `Timestamp` are parameters, the fields of `Mock`.
use gringotts.Base.{ℕ, ⊤, Bool, true, false, ◌||◌, String, List}
use Prim.Native.String.{[] as nil, ◌∷◌ as ◌▸◌}
use text.Mathlib.Text.{starts_with}
use gringotts.Error.{Result, ok, err, panic, ContractError, invalid_tranche}
use gringotts.Exec.{Exec}
use gringotts.Cosmos.{Addr, Timestamp, Binary, Coin, FullDelegation, Env, MessageInfo}
use gringotts.Host.{Host, Querier}
use gringotts.Msg.{SeiQueryWrapper, UnbondingDelegationsResponse, QueryAnswer}
use gringotts.UnitTests.Equality.{Eq, ◌==◌}

pub record Mock : Type 0 where
  pub host : Host
  pub env : Env  -- `mock_env()`
  pub querier : Querier  -- `MockQuerier::new(&[])`
  -- `update_staking`: the bonded denomination, the validators, and the delegations by delegator.
  pub update_staking : String → List String → List (Addr × FullDelegation) → Querier → Querier
  pub update_balance : Addr → List Coin → Querier → Querier
  -- `with_custom_handler`, of a handler before its answer is encoded.
  pub with_custom_handler :
      (SeiQueryWrapper → Result UnbondingDelegationsResponse) → Querier → Querier
  pub from_binary : Binary → Result QueryAnswer
  pub from_seconds : ℕ → Timestamp
  pub plus_nanos : Timestamp → ℕ → Timestamp
  pub plus_seconds : Timestamp → ℕ → Timestamp
  pub minus_seconds : Timestamp → ℕ → Timestamp

-- `mock_info(sender, &funds)`
abbrev pub mock_info : Addr → List Coin → MessageInfo
mock_info sender funds = record { sender = sender; funds = funds }

module _ {S : Type 0} where
  module _ {A : Type 0} where
    abbrev unwrapped : Result A × S → Result A × S
    unwrapped (ok a, s) = (ok a, s)
    unwrapped (err e, s) = (panic, s)
    unwrapped (panic, s) = (panic, s)

    abbrev pub unwrap : Exec S A → Exec S A
    unwrap call s = unwrapped (call s)

    abbrev refused : Result A × S → Result ContractError × S
    refused (ok a, s) = (panic, s)
    refused (err e, s) = (ok e, s)
    refused (panic, s) = (panic, s)

    -- `unwrap_err` and `expect_err`
    abbrev pub unwrap_err : Exec S A → Exec S ContractError
    unwrap_err call s = refused (call s)

  module _ {A : Type 0} where
    abbrev attempted : Result A × S → Result (Result A) × S
    attempted (ok a, s) = (ok (ok a), s)
    attempted (err e, s) = (ok (err e), s)
    attempted (panic, s) = (panic, s)

    -- A call whose result the test looks at; a panic ends the test.
    abbrev pub attempt : Exec S A → Exec S (Result A)
    attempt call s = attempted (call s)

  abbrev pub assert : Bool → Exec S ⊤
  assert true s = (ok tt, s)
  assert false s = (panic, s)

  abbrev pub assert_eq : {A : Type 0} ⦃e : Eq A⦄ → A → A → Exec S ⊤
  assert_eq a b = assert (a == b)

-- `msg.contains(part)`
abbrev pub contains : String → String → Bool
contains nil part = starts_with nil part
contains (c ▸ msg) part = starts_with (c ▸ msg) part || contains msg part

-- `matches!(result, Err(ContractError::InvalidTranche(msg)) if msg.contains(part))`
abbrev pub is_invalid_tranche : Result ⊤ → String → Bool
is_invalid_tranche (err (invalid_tranche msg)) part = contains msg part
is_invalid_tranche _ part = false

-- `Coin::new(amount, denom)`
abbrev pub coin_new : ℕ → String → Coin
coin_new amount denom = record { denom = denom; amount = amount }
