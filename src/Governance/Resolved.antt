-- ===== src/Governance/Resolved.antt =====
-- What the admins resolve is done: an emergency withdrawal, and a change of the admins, from the proposal
-- to the call that the contract makes of itself.
use gringotts.Base.{
  ℕ, ◌+◌, ◌*◌, ◌<◌, ◌≤◌, ◌≡◌, ◌≢◌, refl, Bool, false, none, some, append, str_eq, str_eq_iff, List,
  [], ◌∷◌, sum, length, All, if◌then◌else◌, arith,
}
use gringotts.Word.{u64_mod}
use gringotts.Error.{ok}
use gringotts.Cosmos.{
  Addr, Binary, Duration, WasmMsg, wasm, bank, send, coins, add_message, new_response, Env,
  MessageInfo, Response, Decimal, absolute_percentage,
}
use gringotts.Host.{Host, Querier, IsLawful, IsTallying}
use gringotts.Msg.{ExecuteMsg, empty_struct}
use gringotts.Permission.{authorize_self_call}
use gringotts.Storage.{may_load, may_load-insert, may_load-remove}
use gringotts.Storage.Keys.{string_key}
use gringotts.State.{Store, get_number_of_admins}
use gringotts.Chain.{run}
use gringotts.Contract.Propose.{execute_propose_update_admin, execute_propose_emergency_withdraw}
use gringotts.Contract.Vote.{execute_process_proposal}
use gringotts.Contract.Internal.{execute_internal_update_admin}
use gringotts.Contract.Execute.{execute}
use gringotts.Vesting.Schedule.{amounts}
use gringotts.Accounting.Sound.{IsBalanced, with_money}
use gringotts.Accounting.Withdraw.{withdraw_locked_pays}
use gringotts.Governance.Carried.{Distinct, CanVote, votes_by}
use gringotts.Governance.SelfCalls.{call-Carried}

-- What the contract sends its messages as.
abbrev pub from_self : Env → MessageInfo
from_self env = record { sender = env.address; funds = [] }

module _ (h : Host) (law : IsLawful h) (tally : IsTallying h) (querier : Querier) (env : Env)
    (id : ℕ) (d : Decimal) (info : MessageInfo) (s : Store) {r : Response} {period : Duration}
    (has_period : s.max_voting_period ≡ some period)
    (has_threshold : s.admin_voting_threshold ≡ some (absolute_percentage d))
    (running : h.is_expired (h.after period env.block) env.block ≡ false) (voters : List Addr)
    (distinct : Distinct voters) (fits : 1 + length voters < u64_mod)
    (enough : d * get_number_of_admins s ≤ (1 + length voters) * 1000000000000000000)
    (info' : MessageInfo) (is_admin : may_load info'.sender s.admins ≢ none) where
  -- With a lawful host that tallies by percentage, and on balanced accounts: an emergency withdrawal that
  -- was proposed under the threshold `d`, a fraction of 10^18, and for which distinct admins without a
  -- ballot on it vote in the same block, is processed for any admin, where the proposer and the voters are
  -- that fraction of the admins and the proposal does not expire in that block. The one message that is
  -- sent is the contract's call of itself, and that call pays all that was still to vest when the proposal
  -- was made to the proposed address, empties the schedule and adds the amount to what was withdrawn
  -- locked.
  pub withdraw_locked-votes_by :
      (dst : Addr) (v : IsBalanced s)
      → let (proposed, s1) = execute_propose_emergency_withdraw h env info dst s in
        proposed ≡ ok r
        → s1.proposal_count ≡ some id
        → All (λ a. CanVote id s1 a) voters
        → let (processed, u) =
            execute_process_proposal h env info' id (run h (votes_by querier env id voters) s1) in
          let all = sum (amounts v.schedule) in
          ((binary : Binary) × (r' : Response) × (h.message_binary
                (ExecuteMsg.internal_withdraw_locked dst)
              ≡ ok binary)
            × (processed ≡ ok r')
            × (r'.messages ≡ wasm (WasmMsg.execute env.address binary []) ∷ []))
          × (execute h querier env (from_self env) (ExecuteMsg.internal_withdraw_locked dst) u ≡ (
            ok (add_message new_response (bank (send dst (coins all v.denom)))),
            record u {
              vesting_timestamps = some [];
              vesting_amounts = some [];
              withdrawn_locked = some (v.locked + all);
            },
          ))
  unfolding execute_propose_emergency_withdraw execute
  withdraw_locked-votes_by dst v e count can =
      let m = ExecuteMsg.internal_withdraw_locked dst in
      let title = append "emergecy withdraw to " dst in
      let (sent, (same, _)) =
        call-Carried h law tally querier env id d info title m s e count has_period has_threshold
          running voters distinct can fits enough info' is_admin in
      let s1 = (execute_propose_emergency_withdraw h env info dst s).1 in
      let u =
        (execute_process_proposal h env info' id (run h (votes_by querier env id voters) s1)).1 in
      (sent, withdraw_locked_pays env (from_self env) dst u (with_money same v) refl)

  -- With a lawful host that tallies by percentage: a change of the admins that was proposed under the
  -- threshold `d`, a fraction of 10^18, and for which distinct admins without a ballot on it vote in the
  -- same block, is processed for any admin, where the proposer and the voters are that fraction of the
  -- admins and the proposal does not expire in that block. The one message that is sent is the contract's
  -- call of itself, and after that call the proposed address is an admin, or is none where it is removed,
  -- and all others are admins as they were when the proposal was made.
  pub update_admin-votes_by :
      (admin : Addr) (remove_admin : Bool)
      → let (proposed, s1) = execute_propose_update_admin h env info admin remove_admin s in
        proposed ≡ ok r
        → s1.proposal_count ≡ some id
        → All (λ a. CanVote id s1 a) voters
        → (b : Addr)
        → let (processed, u) =
            execute_process_proposal h env info' id (run h (votes_by querier env id voters) s1) in
          let m = ExecuteMsg.internal_update_admin admin remove_admin in
          ((binary : Binary) × (r' : Response) × (h.message_binary m ≡ ok binary)
            × (processed ≡ ok r')
            × (r'.messages ≡ wasm (WasmMsg.execute env.address binary []) ∷ []))
          × ((execute h querier env (from_self env) m u).0 ≡ ok new_response)
          × (may_load b (execute h querier env (from_self env) m u).1.admins ≡ (
              if str_eq admin b
              then if remove_admin then none else some empty_struct
              else may_load b s.admins))
  unfolding execute_propose_update_admin execute execute_internal_update_admin authorize_self_call
  update_admin-votes_by admin remove_admin e count can b =
      let m = ExecuteMsg.internal_update_admin admin remove_admin in
      let title = if remove_admin then append "remove " admin else append "add " admin in
      let (sent, (_, same)) =
        call-Carried h law tally querier env id d info title m s e count has_period has_threshold
          running voters distinct can fits enough info' is_admin in
      (
        sent,
        ground (arith, str_eq_iff env.address env.address),
        ground (
          arith,
          same,
          str_eq_iff env.address env.address,
          may_load-insert admin b empty_struct s.admins,
          may_load-remove admin b s.admins,
        ),
      )
