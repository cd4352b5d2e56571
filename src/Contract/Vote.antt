-- ===== src/Contract/Vote.antt =====
-- `VoteProposal` and `ProcessProposal`.
use gringotts.Base.{ℕ, Bool, true, false, not, to_string, Option, some, none, ⊤}
use gringotts.Error.{ok, not_open, expired, already_voted, wrong_execute_status}
use gringotts.Exec.{Exec, pure, raise, reads, save, check, ◌>>=◌, ◌>>◌}
use gringotts.Cosmos.{
  Addr, Env, MessageInfo, Response, new_response, add_attribute, add_messages, Status, open_status,
  passed, executed, yes_vote, Ballot,
}
use gringotts.Host.{Host}
use gringotts.Permission.{authorize_admin}
use gringotts.Storage.{may_load, insert}
use gringotts.Storage.Keys.{nat_key, ballot_key}
use gringotts.State.{Store, load}
use gringotts.Contract.Propose.{debug_status}

abbrev pub is_open : Status → Bool
is_open open_status = true
is_open _ = false

abbrev pub is_passed : Status → Bool
is_passed passed = true
is_passed _ = false

-- The closure of `BALLOTS.update`.
unfoldable pub cast_vote : ℕ → Addr → Option Ballot → Exec Store ⊤
cast_vote proposal_id voter none = save (λ s. record s {
  ballots = insert (proposal_id, voter) (record { weight = 1; vote = yes_vote }) s.ballots;
})
cast_vote proposal_id voter (some _) = raise already_voted

module _ (h : Host) where
  unfoldable pub execute_vote : Env → MessageInfo → ℕ → Exec Store Response
  unfolding cast_vote
  execute_vote env info proposal_id = do
    reads (λ s. authorize_admin s info.sender)
    prop ← reads (load (λ s. may_load proposal_id s.proposals))
    check (is_open prop.status) not_open
    check (not (h.is_expired prop.expires env.block)) expired
    existing ← reads (λ s. ok (may_load (proposal_id, info.sender) s.ballots))
    cast_vote proposal_id info.sender existing
    let voted = record prop { votes = h.add_vote prop.votes yes_vote 1 }
    let prop' = h.update_status voted env.block
    save (λ s. record s { proposals = insert proposal_id prop' s.proposals })
    pure (
        add_attribute
          (add_attribute
            (add_attribute (add_attribute new_response "action" "vote") "sender" info.sender)
            "proposal_id" (to_string proposal_id))
          "status" (debug_status prop'.status))

  unfoldable pub execute_process_proposal : Env → MessageInfo → ℕ → Exec Store Response
  execute_process_proposal env info proposal_id = do
    reads (λ s. authorize_admin s info.sender)
    prop ← reads (load (λ s. may_load proposal_id s.proposals))
    let prop' = h.update_status prop env.block
    check (is_passed prop'.status) wrong_execute_status
    save (λ s. record s {
      proposals = insert proposal_id (record prop' { status = executed }) s.proposals;
    })
    pure (
        add_attribute
          (add_attribute (add_attribute (add_messages new_response prop'.msgs) "action" "execute")
            "sender" info.sender)
          "proposal_id" (to_string proposal_id))
