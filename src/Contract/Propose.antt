-- ===== src/Contract/Propose.antt =====
-- The handlers that make proposals, and `UpdateOp`.
use gringotts.Base.{ℕ, Bool, String, append, to_string, if◌then◌else◌, List, [], ◌∷◌, none}
use gringotts.Error.{ok}
use gringotts.Exec.{Exec, pure, lift, reads, save, ◌>>=◌, ◌>>◌}
use gringotts.Cosmos.{
  Addr, Env, MessageInfo, Response, new_response, add_attribute, CosmosMsg, wasm, execute, gov,
  GovMsg, VoteOption, yes_option, no_option, abstain_option, no_with_veto, Status, pending,
  open_status, rejected, passed, executed, yes_vote, Ballot, Proposal,
}
use gringotts.Host.{Host}
use gringotts.Permission.{authorize_admin}
use gringotts.Storage.{insert, remove}
use gringotts.Storage.Keys.{nat_key, string_key, ballot_key}
use gringotts.Msg.{ExecuteMsg, empty_struct}
use gringotts.State.{Store, load, get_number_of_admins, next_proposal_id}

-- `{:?}` of a vote option and of a status: the constructor's name.
unfoldable pub debug_vote : VoteOption → String
debug_vote yes_option = "Yes"
debug_vote no_option = "No"
debug_vote abstain_option = "Abstain"
debug_vote no_with_veto = "NoWithVeto"

unfoldable pub debug_status : Status → String
debug_status pending = "Pending"
debug_status open_status = "Open"
debug_status rejected = "Rejected"
debug_status passed = "Passed"
debug_status executed = "Executed"

unfoldable pub execute_update_op : MessageInfo → Addr → Bool → Exec Store Response
unfolding authorize_admin
execute_update_op info op remove_op = do
  reads (λ s. authorize_admin s info.sender)
  save (λ s.
      if remove_op
      then record s { ops = remove op s.ops }
      else record s { ops = insert op empty_struct s.ops })
  pure new_response

module _ (h : Host) where
  -- The proposal as it is made: open, with the proposer's own vote.
  unfoldable pub new_proposal : Env → Addr → String → List CosmosMsg → Exec Store Proposal
  new_proposal env proposer title msgs = do
    max_voting_period ← reads (load (λ t. t.max_voting_period))
    threshold ← reads (load (λ t. t.admin_voting_threshold))
    number_of_admins ← reads (λ s. ok (get_number_of_admins s))
    pure (record {
      title = title;
      description = "";
      start_height = env.block.height;
      expires = h.after max_voting_period env.block;
      msgs = msgs;
      status = open_status;
      votes = h.votes_yes 1;
      threshold = threshold;
      total_weight = number_of_admins;
      proposer = proposer;
      deposit = none;
    })

  unfoldable pub execute_propose : Env → MessageInfo → String → List CosmosMsg → Exec Store Response
  unfolding authorize_admin new_proposal next_proposal_id
  execute_propose env info title msgs = do
    reads (λ s. authorize_admin s info.sender)
    new ← new_proposal env info.sender title msgs
    let prop = h.update_status new env.block
    id ← next_proposal_id
    save (λ s. record s { proposals = insert id prop s.proposals })
    let ballot : Ballot = record { weight = 1; vote = yes_vote }
    save (λ s. record s { ballots = insert (id, info.sender) ballot s.ballots })
    pure (
        add_attribute
          (add_attribute
            (add_attribute (add_attribute new_response "action" "propose") "sender" info.sender)
            "proposal_id" (to_string id))
          "status" (debug_status prop.status))

  unfoldable pub execute_propose_update_admin :
      Env → MessageInfo → Addr → Bool → Exec Store Response
  unfolding execute_propose
  execute_propose_update_admin env info admin remove_admin = do
    let title = if remove_admin then append "remove " admin else append "add " admin
    binary ← lift (h.message_binary (ExecuteMsg.internal_update_admin admin remove_admin))
    execute_propose env info title (wasm (execute env.address binary []) ∷ [])

  unfoldable pub execute_propose_update_unlocked_distribution_address :
      Env → MessageInfo → Addr → Exec Store Response
  unfolding execute_propose
  execute_propose_update_unlocked_distribution_address env info addr = do
    let title = append "updating unlocked distribution address " addr
    binary ← lift (h.message_binary (ExecuteMsg.internal_update_unlocked_distribution_address addr))
    execute_propose env info title (wasm (execute env.address binary []) ∷ [])

  unfoldable pub execute_propose_update_staking_reward_distribution_address :
      Env → MessageInfo → Addr → Exec Store Response
  unfolding execute_propose
  execute_propose_update_staking_reward_distribution_address env info addr = do
    let title = append "updating staking reward distribution address " addr
    binary ←
        lift
          (h.message_binary (ExecuteMsg.internal_update_staking_reward_distribution_address addr))
    execute_propose env info title (wasm (execute env.address binary []) ∷ [])

  unfoldable pub execute_propose_emergency_withdraw : Env → MessageInfo → Addr → Exec Store Response
  unfolding execute_propose
  execute_propose_emergency_withdraw env info dst = do
    let title = append "emergecy withdraw to " dst
    binary ← lift (h.message_binary (ExecuteMsg.internal_withdraw_locked dst))
    execute_propose env info title (wasm (execute env.address binary []) ∷ [])

  unfoldable pub execute_propose_gov_vote : Env → MessageInfo → ℕ → VoteOption → Exec Store Response
  unfolding execute_propose debug_vote
  execute_propose_gov_vote env info gov_proposal_id gov_vote =
      let title =
        append "voting "
          (append (debug_vote gov_vote) (append " for " (to_string gov_proposal_id))) in
      execute_propose env info title (gov (GovMsg.vote gov_proposal_id gov_vote) ∷ [])
