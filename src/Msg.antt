-- ===== src/Msg.antt =====
-- msg.rs and the structs of data_structure.rs: the messages that the contract takes, and its answers.
use gringotts.Base.{ℕ, Bool, String, List, Option}
use gringotts.Cosmos.{
  Addr, Timestamp, CosmosMsg, VoteOption, Vote, Status, Duration, Expiration, Threshold,
  ThresholdResponse, DepositInfo,
}

-- The value that the maps of admins and of operators hold.
pub data EmptyStruct : Type 0 where
  empty_struct : EmptyStruct

pub record Tranche : Type 0 where
  pub denom : String
  pub vesting_timestamps : List Timestamp
  pub vesting_amounts : List ℕ  -- u128
  pub unlocked_token_distribution_address : Addr
  pub staking_reward_distribution_address : Addr

pub record InstantiateMsg : Type 0 where
  pub admins : List Addr
  pub ops : List Addr
  pub tranche : Tranche
  pub max_voting_period : Duration
  pub admin_voting_threshold_percentage : ℕ  -- u8

pub data ExecuteMsg : Type 0 where
  delegate : String → ℕ → ExecuteMsg
  redelegate : String → String → ℕ → ExecuteMsg
  undelegate : String → ℕ → ExecuteMsg
  initiate_withdraw_unlocked : ℕ → ExecuteMsg
  initiate_withdraw_reward : ExecuteMsg
  update_op : Addr → Bool → ExecuteMsg
  propose_emergency_withdraw : Addr → ExecuteMsg
  propose_update_admin : Addr → Bool → ExecuteMsg
  propose_update_unlocked_distribution_address : Addr → ExecuteMsg
  propose_update_staking_reward_distribution_address : Addr → ExecuteMsg
  propose_gov_vote : ℕ → VoteOption → ExecuteMsg
  vote_proposal : ℕ → ExecuteMsg
  process_proposal : ℕ → ExecuteMsg
  internal_update_admin : Addr → Bool → ExecuteMsg
  internal_update_unlocked_distribution_address : Addr → ExecuteMsg
  internal_update_staking_reward_distribution_address : Addr → ExecuteMsg
  internal_withdraw_locked : Addr → ExecuteMsg

pub data QueryMsg : Type 0 where
  list_proposals : QueryMsg
  list_votes : ℕ → QueryMsg
  list_admins : QueryMsg
  list_ops : QueryMsg
  info : QueryMsg
  config : QueryMsg
  total_vested : QueryMsg

pub record AdminListResponse : Type 0 where
  pub admins : List Addr

pub record OpListResponse : Type 0 where
  pub ops : List Addr

pub record ShowInfoResponse : Type 0 where
  pub denom : String
  pub vesting_timestamps : List Timestamp
  pub vesting_amounts : List ℕ
  pub unlock_distribution_address : Addr
  pub staking_reward_address : Addr
  pub withdrawn_staking_rewards : ℕ
  pub withdrawn_unlocked : ℕ
  pub withdrawn_locked : ℕ

pub record ShowConfigResponse : Type 0 where
  pub max_voting_period : Duration
  pub admin_voting_threshold : Threshold

pub record ShowTotalVestedResponse : Type 0 where
  pub vested_amount : ℕ

pub data SeiRoute : Type 0 where
  stakingext : SeiRoute

pub data SeiQuery : Type 0 where
  unbonding_delegations : Addr → SeiQuery

pub record SeiQueryWrapper : Type 0 where
  pub route : SeiRoute
  pub query_data : SeiQuery

-- `creation_height` is an i64 that nothing reads: it is kept as its 64 bits.
pub record UnbondingDelegationEntry : Type 0 where
  pub creation_height : ℕ
  pub completion_time : String
  pub initial_balance : ℕ
  pub balance : ℕ

pub record UnbondingDelegationsResponse : Type 0 where
  pub entries : List UnbondingDelegationEntry

-- The answers of cw3 that `query` gives.
pub record ProposalResponse : Type 0 where
  pub id : ℕ
  pub title : String
  pub description : String
  pub msgs : List CosmosMsg
  pub status : Status
  pub expires : Expiration
  pub threshold : ThresholdResponse
  pub proposer : Addr
  pub deposit : Option DepositInfo

pub record VoteInfo : Type 0 where
  pub proposal_id : ℕ
  pub voter : Addr
  pub vote : Vote
  pub weight : ℕ

-- What `query` hands to `to_binary`.
pub data QueryAnswer : Type 0 where
  proposals_answer : List ProposalResponse → QueryAnswer
  votes_answer : List VoteInfo → QueryAnswer
  admins_answer : AdminListResponse → QueryAnswer
  ops_answer : OpListResponse → QueryAnswer
  info_answer : ShowInfoResponse → QueryAnswer
  config_answer : ShowConfigResponse → QueryAnswer
  total_vested_answer : ShowTotalVestedResponse → QueryAnswer
