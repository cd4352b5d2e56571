-- ===== src/UnitTests/Answers.antt =====
-- `PartialEq` of the answers to queries.
use gringotts.Base.{Bool, true, false, ◌&&◌, Option, none}
use gringotts.Cosmos.{Vote, Status, Duration, Expiration, Threshold, ThresholdResponse}
use gringotts.Msg.{ProposalResponse, VoteInfo, ShowInfoResponse, ShowConfigResponse, QueryAnswer}
use gringotts.UnitTests.Equality.{Eq, ◌==◌, nat_eq, string_eq, list_eq, message_eq}

abbrev eq_vote : Vote → Vote → Bool
eq_vote Vote.yes_vote Vote.yes_vote = true
eq_vote Vote.no_vote Vote.no_vote = true
eq_vote Vote.abstain_vote Vote.abstain_vote = true
eq_vote Vote.veto_vote Vote.veto_vote = true
eq_vote _ _ = false

abbrev eq_status : Status → Status → Bool
eq_status Status.pending Status.pending = true
eq_status Status.open_status Status.open_status = true
eq_status Status.rejected Status.rejected = true
eq_status Status.passed Status.passed = true
eq_status Status.executed Status.executed = true
eq_status _ _ = false

abbrev eq_duration : Duration → Duration → Bool
eq_duration (Duration.height m) (Duration.height n) = m == n
eq_duration (Duration.time m) (Duration.time n) = m == n
eq_duration _ _ = false

abbrev eq_expiration : Expiration → Expiration → Bool
eq_expiration (Expiration.at_height m) (Expiration.at_height n) = m == n
eq_expiration (Expiration.at_time m) (Expiration.at_time n) = m == n
eq_expiration Expiration.never Expiration.never = true
eq_expiration _ _ = false

abbrev eq_threshold : Threshold → Threshold → Bool
eq_threshold (Threshold.absolute_count m) (Threshold.absolute_count n) = m == n
eq_threshold (Threshold.absolute_percentage p) (Threshold.absolute_percentage q) = p == q
eq_threshold (Threshold.threshold_quorum p m) (Threshold.threshold_quorum q n) = p == q && m == n
eq_threshold _ _ = false

abbrev eq_threshold_of : ThresholdResponse → ThresholdResponse → Bool
eq_threshold_of (ThresholdResponse.absolute_count_of p m)
      (ThresholdResponse.absolute_count_of q n) =
    p == q && m == n
eq_threshold_of (ThresholdResponse.absolute_percentage_of p m)
      (ThresholdResponse.absolute_percentage_of q n) =
    p == q && m == n
eq_threshold_of (ThresholdResponse.threshold_quorum_of p r m)
      (ThresholdResponse.threshold_quorum_of q t n) =
    p == q && r == t && m == n
eq_threshold_of _ _ = false

-- There is no deposit to compare.
abbrev both_none : {A : Type 0} → Option A → Option A → Bool
both_none none none = true
both_none _ _ = false

instance abbrev pub proposal_eq : Eq ProposalResponse
proposal_eq = record {
  eq = λ p q.
      p.id == q.id
      && p.title == q.title
      && p.description == q.description
      && p.msgs == q.msgs
      && eq_status p.status q.status
      && eq_expiration p.expires q.expires
      && eq_threshold_of p.threshold q.threshold
      && p.proposer == q.proposer
      && both_none p.deposit q.deposit;
}

instance abbrev pub vote_info_eq : Eq VoteInfo
vote_info_eq = record {
  eq = λ p q.
      p.proposal_id == q.proposal_id
      && p.voter == q.voter
      && eq_vote p.vote q.vote
      && p.weight == q.weight;
}

abbrev eq_info : ShowInfoResponse → ShowInfoResponse → Bool
eq_info a b =
    a.denom == b.denom
    && a.vesting_timestamps == b.vesting_timestamps
    && a.vesting_amounts == b.vesting_amounts
    && a.unlock_distribution_address == b.unlock_distribution_address
    && a.staking_reward_address == b.staking_reward_address
    && a.withdrawn_staking_rewards == b.withdrawn_staking_rewards
    && a.withdrawn_unlocked == b.withdrawn_unlocked
    && a.withdrawn_locked == b.withdrawn_locked

abbrev eq_config : ShowConfigResponse → ShowConfigResponse → Bool
eq_config a b =
    eq_duration a.max_voting_period b.max_voting_period
    && eq_threshold a.admin_voting_threshold b.admin_voting_threshold

abbrev eq_answer : QueryAnswer → QueryAnswer → Bool
eq_answer (QueryAnswer.proposals_answer a) (QueryAnswer.proposals_answer b) = a == b
eq_answer (QueryAnswer.votes_answer a) (QueryAnswer.votes_answer b) = a == b
eq_answer (QueryAnswer.admins_answer a) (QueryAnswer.admins_answer b) = a.admins == b.admins
eq_answer (QueryAnswer.ops_answer a) (QueryAnswer.ops_answer b) = a.ops == b.ops
eq_answer (QueryAnswer.info_answer a) (QueryAnswer.info_answer b) = eq_info a b
eq_answer (QueryAnswer.config_answer a) (QueryAnswer.config_answer b) = eq_config a b
eq_answer (QueryAnswer.total_vested_answer a) (QueryAnswer.total_vested_answer b) =
    a.vested_amount == b.vested_amount
eq_answer _ _ = false

instance abbrev pub answer_eq : Eq QueryAnswer
answer_eq = record { eq = eq_answer }
