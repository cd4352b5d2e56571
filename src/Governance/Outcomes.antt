-- ===== src/Governance/Outcomes.antt =====
-- When a vote and the processing of a proposal succeed.
use gringotts.Base.{ℕ, ◌≡◌, ◌≢◌, ◌↔◌, false, none, some, arith}
use gringotts.Error.{IsOk}
use gringotts.Cosmos.{Env, MessageInfo, open_status, passed, Proposal}
use gringotts.Host.{Host, IsLawful}
use gringotts.Storage.{may_load}
use gringotts.Storage.Keys.{nat_key, string_key, ballot_key}
use gringotts.Permission.{authorize_admin}
use gringotts.State.{Store}
use gringotts.Contract.Vote.{execute_vote, execute_process_proposal}

module _ (h : Host) (env : Env) (info : MessageInfo) (id : ℕ) (s : Store) {p : Proposal}
    (present : may_load id s.proposals ≡ some p) where
  -- A vote on a stored proposal succeeds exactly when the sender is an admin, the stored status is open,
  -- the proposal has not expired, and the sender has no ballot on it.
  pub vote-IsOk : IsOk (execute_vote h env info id s).0 ↔ (
      (may_load info.sender s.admins ≢ none)
      × (p.status ≡ open_status)
      × (h.is_expired p.expires env.block ≡ false)
      × (may_load (id, info.sender) s.ballots ≡ none))
  unfolding execute_vote authorize_admin
  vote-IsOk = ground arith

  -- With a lawful host, the processing of a stored proposal succeeds exactly when the sender is an admin
  -- and the current status of the proposal is passed.
  pub process-IsOk :
      IsLawful h
      → IsOk (execute_process_proposal h env info id s).0
        ↔ ((may_load info.sender s.admins ≢ none) × (h.current_status p env.block ≡ passed))
  unfolding execute_process_proposal authorize_admin
  process-IsOk law = ground (arith, law.update_status_lem p env.block)
