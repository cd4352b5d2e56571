-- ===== src/Host.antt =====
-- What the contract calls and does not implement: the querier of the chain, and the functions of
-- cosmwasm_std, cw3 and cw_utils. They are parameters; `IsLawful` states what the proofs rely on.
-- Except for the encodings they are total here: where those packages panic (a `Timestamp` that overflows, a
-- threshold above 100 percent, a count of votes that overflows), nothing is said.
use gringotts.Base.{
  ◌*◌, ◌≤◌, ◌⊎◌, false, ℕ, ◌+◌, ◌-◌, ◌/◌, ◌<◌, ◌≡◌, ◌≢◌, Bool, String, List, Option,
}
use gringotts.Word.{u64_mod}
use gringotts.Error.{Result}
use gringotts.Cosmos.{
  Addr, Timestamp, Binary, Coin, BlockInfo, Delegation, FullDelegation, Vote, yes_vote, Votes,
  Status, open_status, passed, Duration, Expiration, Decimal, Threshold, absolute_percentage,
  ThresholdResponse, Proposal,
}
use gringotts.Msg.{ExecuteMsg, QueryAnswer, SeiQueryWrapper, UnbondingDelegationsResponse}

-- `deps.querier`
pub record Querier : Type 0 where
  pub query_balance : Addr → String → Result Coin
  pub query_all_delegations : Addr → Result (List Delegation)
  pub query_delegation : Addr → String → Result (Option FullDelegation)
  pub query_custom : SeiQueryWrapper → Result UnbondingDelegationsResponse

pub record Host : Type 0 where
  pub seconds : Timestamp → ℕ  -- `Timestamp::seconds`
  pub after : Duration → BlockInfo → Expiration  -- `Duration::after`
  pub is_expired : Expiration → BlockInfo → Bool  -- `Expiration::is_expired`
  pub percent : ℕ → Decimal  -- `Decimal::percent`
  pub to_response : Threshold → ℕ → ThresholdResponse  -- `Threshold::to_response`
  pub votes_yes : ℕ → Votes  -- `Votes::yes`
  pub add_vote : Votes → Vote → ℕ → Votes  -- `Votes::add_vote`
  pub current_status : Proposal → BlockInfo → Status  -- `Proposal::current_status`
  pub update_status : Proposal → BlockInfo → Proposal  -- `Proposal::update_status`
  pub message_binary : ExecuteMsg → Result Binary  -- `to_binary` of a message
  pub answer_binary : QueryAnswer → Result Binary  -- `to_binary` of an answer

-- The documented behaviour of those functions.
pub record IsLawful (h : Host) : Type 0 where
  pub seconds_lem : (t : Timestamp) → h.seconds t ≡ t / 1000000000
  pub votes_yes_lem : (w : ℕ) → (h.votes_yes w).yes_weight ≡ w
  pub add_vote_lem :
      (v : Votes) (w : ℕ)
      → v.yes_weight + w < u64_mod
      → (h.add_vote v yes_vote w).yes_weight ≡ v.yes_weight + w
  -- `update_status` stores the current status, and changes nothing else.
  pub update_status_lem :
      (p : Proposal) (b : BlockInfo)
      → h.update_status p b ≡ record p { status = h.current_status p b }
  -- Only an open proposal can change its status by itself.
  pub current_status_lem :
      (p : Proposal) (b : BlockInfo) → p.status ≢ open_status → h.current_status p b ≡ p.status

-- The documented behaviour of a tally by percentage, which is the threshold that the contract sets.
pub record IsTallying (h : Host) : Type 0 where
  pub votes_yes_others :
      (w : ℕ) → ((h.votes_yes w).no_weight ≡ 0) × ((h.votes_yes w).veto_weight ≡ 0)
  pub add_vote_others :
      (v : Votes) (w : ℕ)
      → ((h.add_vote v yes_vote w).no_weight ≡ v.no_weight)
        × ((h.add_vote v yes_vote w).veto_weight ≡ v.veto_weight)
  -- An open proposal has passed once its yes votes are the percentage of the total weight.
  pub passes_lem :
      (p : Proposal) (b : BlockInfo) (d : Decimal)
      → p.status ≡ open_status
      → p.threshold ≡ absolute_percentage d
      → d * p.total_weight ≤ p.votes.yes_weight * 1000000000000000000
      → h.current_status p b ≡ passed
  -- Before it expires, and with no votes against it, it is open or has passed.
  pub stays_lem :
      (p : Proposal) (b : BlockInfo)
      → p.status ≡ open_status
      → h.is_expired p.expires b ≡ false
      → p.votes.no_weight ≡ 0
      → p.votes.veto_weight ≡ 0
      → (h.current_status p b ≡ open_status) ⊎ (h.current_status p b ≡ passed)

-- The documented converse: by a whole percentage, an open proposal passes only with that percentage of the
-- total weight, without the weight that abstained.
pub record IsCounting (h : Host) : Type 0 where
  pub votes_yes_abstain : (w : ℕ) → (h.votes_yes w).abstain_weight ≡ 0
  pub add_vote_abstain :
      (v : Votes) (w : ℕ) → (h.add_vote v yes_vote w).abstain_weight ≡ v.abstain_weight
  pub passed_lem :
      (p : Proposal) (b : BlockInfo) (n : ℕ)
      → p.status ≡ open_status
      → p.threshold ≡ absolute_percentage (h.percent n)
      → h.current_status p b ≡ passed
      → n * (p.total_weight - p.votes.abstain_weight) ≤ p.votes.yes_weight * 100
