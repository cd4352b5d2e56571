-- ===== src/Contract/Query.antt =====
-- `query`: the answers that read the storage.
use gringotts.Base.{ℕ, ◌==◌, if◌then◌else◌, List, [], ◌∷◌, map, reverse}
use gringotts.Error.{Result, ok, ◌>>=◌}
use gringotts.Cosmos.{Addr, Binary, BlockInfo, Env, Ballot, Proposal}
use gringotts.Host.{Host}
use gringotts.Storage.{Map, keys}
use gringotts.Msg.{
  ProposalResponse, VoteInfo, AdminListResponse, OpListResponse, ShowInfoResponse,
  ShowConfigResponse, ShowTotalVestedResponse, QueryMsg, list_proposals, list_votes, list_admins,
  list_ops, info, config, total_vested, proposals_answer, votes_answer, admins_answer, ops_answer,
  info_answer, config_answer, total_vested_answer,
}
use gringotts.State.{Store, load}
use gringotts.Vesting.{total_vested_amount}

-- The entries of one proposal: `BALLOTS.prefix(proposal_id)`.
unfoldable pub votes_of : ℕ → Map (ℕ × Addr) Ballot → List VoteInfo
votes_of proposal_id [] = []
votes_of proposal_id (((i, addr), ballot) ∷ rest) =
    let later = votes_of proposal_id rest in
    if i == proposal_id
    then (record {
      proposal_id = proposal_id;
      voter = addr;
      vote = ballot.vote;
      weight = ballot.weight;
    })
      ∷ later
    else later

unfoldable pub query_votes : ℕ → Store → Result (List VoteInfo)
unfolding votes_of
query_votes proposal_id s = ok (votes_of proposal_id s.ballots)

unfoldable pub query_admins : Store → Result AdminListResponse
query_admins s = ok (record { admins = keys s.admins })

unfoldable pub query_ops : Store → Result OpListResponse
query_ops s = ok (record { ops = keys s.ops })

unfoldable pub query_info : Store → Result ShowInfoResponse
query_info s = do
  denom ← load (λ t. t.denom) s
  vesting_timestamps ← load (λ t. t.vesting_timestamps) s
  vesting_amounts ← load (λ t. t.vesting_amounts) s
  unlock_distribution_address ← load (λ t. t.unlock_distribution_address) s
  staking_reward_address ← load (λ t. t.staking_reward_address) s
  withdrawn_staking_rewards ← load (λ t. t.withdrawn_staking_rewards) s
  withdrawn_unlocked ← load (λ t. t.withdrawn_unlocked) s
  withdrawn_locked ← load (λ t. t.withdrawn_locked) s
  ok (record {
    denom = denom;
    vesting_timestamps = vesting_timestamps;
    vesting_amounts = vesting_amounts;
    unlock_distribution_address = unlock_distribution_address;
    staking_reward_address = staking_reward_address;
    withdrawn_staking_rewards = withdrawn_staking_rewards;
    withdrawn_unlocked = withdrawn_unlocked;
    withdrawn_locked = withdrawn_locked;
  })

unfoldable pub query_config : Store → Result ShowConfigResponse
query_config s = do
  max_voting_period ← load (λ t. t.max_voting_period) s
  admin_voting_threshold ← load (λ t. t.admin_voting_threshold) s
  ok (record {
    max_voting_period = max_voting_period;
    admin_voting_threshold = admin_voting_threshold;
  })

unfoldable pub query_total_vested : Env → Store → Result ShowTotalVestedResponse
query_total_vested env s = do
  vested_amount ← total_vested_amount env.block.time s
  ok (record { vested_amount = vested_amount })

module _ (h : Host) where
  unfoldable pub map_proposal : BlockInfo → ℕ × Proposal → ProposalResponse
  map_proposal block (id, prop) = record {
    id = id;
    title = prop.title;
    description = prop.description;
    msgs = prop.msgs;
    status = h.current_status prop block;
    expires = prop.expires;
    threshold = h.to_response prop.threshold prop.total_weight;
    proposer = prop.proposer;
    deposit = prop.deposit;
  }

  unfoldable pub query_proposals : Env → Store → Result (List ProposalResponse)
  unfolding map_proposal
  query_proposals env s = ok (map (map_proposal env.block) (reverse s.proposals))

  unfoldable pub query : Env → QueryMsg → Store → Result Binary
  unfolding query_proposals query_votes query_admins query_ops query_info query_config
      query_total_vested
  query env list_proposals s = do
    proposals ← query_proposals env s
    h.answer_binary (proposals_answer proposals)
  query env (list_votes proposal_id) s = do
    votes ← query_votes proposal_id s
    h.answer_binary (votes_answer votes)
  query env list_admins s = do admins ← query_admins s; h.answer_binary (admins_answer admins)
  query env list_ops s = do ops ← query_ops s; h.answer_binary (ops_answer ops)
  query env info s = do shown ← query_info s; h.answer_binary (info_answer shown)
  query env config s = do shown ← query_config s; h.answer_binary (config_answer shown)
  query env total_vested s = do
    shown ← query_total_vested env s
    h.answer_binary (total_vested_answer shown)
