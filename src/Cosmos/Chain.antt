-- ===== src/Cosmos/Chain.antt =====
-- cosmwasm_std: coins, the environment of a call, and the messages that a response carries. An address
-- is its text, a `Timestamp` its nanoseconds.
use gringotts.Base.{ℕ, String, List, [], ◌∷◌, ◌++◌}

abbrev pub Addr : Type 0
Addr = String

abbrev pub Timestamp : Type 0
Timestamp = ℕ

abbrev pub Binary : Type 0
Binary = List ℕ

pub record Coin : Type 0 where
  pub denom : String
  pub amount : ℕ

pub record BlockInfo : Type 0 where
  pub height : ℕ
  pub time : Timestamp

-- `env.contract.address` is the field `address`.
pub record Env : Type 0 where
  pub block : BlockInfo
  pub address : Addr

pub record MessageInfo : Type 0 where
  pub sender : Addr
  pub funds : List Coin

pub data VoteOption : Type 0 where
  yes_option no_option abstain_option no_with_veto : VoteOption

pub data BankMsg : Type 0 where
  send : Addr → List Coin → BankMsg

pub data StakingMsg : Type 0 where
  delegate : String → Coin → StakingMsg
  redelegate : String → String → Coin → StakingMsg
  undelegate : String → Coin → StakingMsg

pub data DistributionMsg : Type 0 where
  withdraw_delegator_reward : String → DistributionMsg

pub data WasmMsg : Type 0 where
  execute : Addr → Binary → List Coin → WasmMsg

pub data GovMsg : Type 0 where
  vote : ℕ → VoteOption → GovMsg

pub data CosmosMsg : Type 0 where
  bank : BankMsg → CosmosMsg
  staking : StakingMsg → CosmosMsg
  distribution : DistributionMsg → CosmosMsg
  wasm : WasmMsg → CosmosMsg
  gov : GovMsg → CosmosMsg

-- A response is its messages and its attributes, each in the order in which they were added.
pub record Response : Type 0 where
  pub messages : List CosmosMsg
  pub attributes : List (String × String)

abbrev pub new_response : Response
new_response = record { messages = []; attributes = [] }

abbrev pub add_message : Response → CosmosMsg → Response
add_message r m = record r { messages = r.messages ++ m ∷ [] }

abbrev pub add_messages : Response → List CosmosMsg → Response
add_messages r ms = record r { messages = r.messages ++ ms }

abbrev pub add_attribute : Response → String → String → Response
add_attribute r k v = record r { attributes = r.attributes ++ (k, v) ∷ [] }

-- `coins(amount, denom)`
abbrev pub coins : ℕ → String → List Coin
coins amount denom = record { denom = denom; amount = amount } ∷ []

pub record Delegation : Type 0 where
  pub validator : String
  pub amount : Coin

pub record FullDelegation : Type 0 where
  pub validator : String
  pub amount : Coin
  pub accumulated_rewards : List Coin
