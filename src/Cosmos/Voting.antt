-- ===== src/Cosmos/Voting.antt =====
-- cw3 and cw_utils: proposals, ballots and their parts, as data. What those packages compute with them
-- is a parameter (Host.antt).
use gringotts.Base.{ℕ, String, List, Option}
use gringotts.Cosmos.Chain.{Addr, Timestamp, CosmosMsg}

pub data Vote : Type 0 where
  yes_vote no_vote abstain_vote veto_vote : Vote

pub record Ballot : Type 0 where
  pub weight : ℕ
  pub vote : Vote

-- The weight that was cast for each vote.
pub record Votes : Type 0 where
  pub yes_weight : ℕ
  pub no_weight : ℕ
  pub abstain_weight : ℕ
  pub veto_weight : ℕ

pub data Status : Type 0 where
  pending open_status rejected passed executed : Status

pub data Duration : Type 0 where
  height time : ℕ → Duration

pub data Expiration : Type 0 where
  at_height : ℕ → Expiration
  at_time : Timestamp → Expiration
  never : Expiration

-- A decimal fraction, by its number of 10^-18 parts.
abbrev pub Decimal : Type 0
Decimal = ℕ

pub data Threshold : Type 0 where
  absolute_count : ℕ → Threshold
  absolute_percentage : Decimal → Threshold
  threshold_quorum : Decimal → Decimal → Threshold

-- A threshold beside the total weight that it is taken of.
pub data ThresholdResponse : Type 0 where
  absolute_count_of : ℕ → ℕ → ThresholdResponse
  absolute_percentage_of : Decimal → ℕ → ThresholdResponse
  threshold_quorum_of : Decimal → Decimal → ℕ → ThresholdResponse

-- The contract takes no deposits.
pub data DepositInfo : Type 0 where

pub record Proposal : Type 0 where
  pub title : String
  pub description : String
  pub start_height : ℕ
  pub expires : Expiration
  pub msgs : List CosmosMsg
  pub status : Status
  pub votes : Votes
  pub threshold : Threshold
  pub total_weight : ℕ
  pub proposer : Addr
  pub deposit : Option DepositInfo
