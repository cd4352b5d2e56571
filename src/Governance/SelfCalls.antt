-- ===== src/Governance/SelfCalls.antt =====
-- A call of the contract of itself that admins propose and carry: what is left of the store when the
-- proposal is processed.
use mathlib.Core.Path.{subst}
use gringotts.Base.{
  ℕ, ◌+◌, ◌*◌, ◌<◌, ◌≤◌, ◌≡◌, ◌≢◌, ◌∙◌, refl, sym, ap, false, none, some, String, List, [], ◌∷◌,
  length, All, arith, inl, inr,
}
use gringotts.Word.{u64_mod}
use gringotts.Error.{ok, Result-cases}
use gringotts.Exec.{Exec, lift, ◌>>=◌}
use gringotts.Cosmos.{
  Addr, Binary, Duration, CosmosMsg, WasmMsg, wasm, Env, MessageInfo, Response, Decimal,
  absolute_percentage,
}
use gringotts.Host.{Host, Querier, IsLawful, IsTallying}
use gringotts.Msg.{ExecuteMsg}
use gringotts.Storage.{may_load}
use gringotts.Storage.Keys.{string_key}
use gringotts.State.{Store, get_number_of_admins}
use gringotts.Chain.{deliver, deliver_either, run}
use gringotts.Contract.Propose.{execute_propose}
use gringotts.Contract.Vote.{execute_vote, execute_process_proposal}
use gringotts.Contract.Execute.{execute}
use gringotts.Accounting.Frame.{money, money-propose, money-vote, money-process_proposal}
use gringotts.Governance.Carried.{Distinct, CanVote, vote_by, votes_by}
use gringotts.Governance.Live.{process-votes_by}

-- What neither proposals nor votes write.
abbrev pub Unmoved : Store → Store → Type 0
Unmoved s t = (money t ≡ money s) × (t.admins ≡ s.admins)

Unmoved-trans : (s t u : Store) → Unmoved s t → Unmoved t u → Unmoved s u
Unmoved-trans s t u (a, b) (c, d) = (c ∙ a, d ∙ b)

module _ (h : Host) where
  propose-Unmoved :
      (env : Env) (info : MessageInfo) (title : String) (msgs : List CosmosMsg) (s : Store)
      → Unmoved s (execute_propose h env info title msgs s).1
  unfolding execute_propose
  propose-Unmoved env info title msgs s = (money-propose h env info title msgs s, ground arith)

  process-Unmoved :
      (env : Env) (info : MessageInfo) (id : ℕ) (s : Store)
      → Unmoved s (execute_process_proposal h env info id s).1
  unfolding execute_process_proposal
  process-Unmoved env info id s = (money-process_proposal h env info id s, ground arith)

  vote-Unmoved :
      (env : Env) (info : MessageInfo) (id : ℕ) (s : Store)
      → Unmoved s (execute_vote h env info id s).1
  unfolding execute_vote
  vote-Unmoved env info id s = (money-vote h env info id s, ground arith)

  votes_by-Unmoved :
      (querier : Querier) (env : Env) (id : ℕ) (voters : List Addr) (s : Store)
      → Unmoved s (run h (votes_by querier env id voters) s)
  unfolding run execute
  votes_by-Unmoved querier env id [] s = (refl, refl)
  votes_by-Unmoved querier env id (a ∷ voters) s =
      let c = vote_by querier env id a in
      let t = deliver h c s in
      Unmoved-trans s t (run h (votes_by querier env id voters) t)
        (deliver_either h (λ t. Unmoved s t) c s (refl, refl) (vote-Unmoved env c.info id s))
        (votes_by-Unmoved querier env id voters t)

  -- The proposal of a call of the contract of itself.
  abbrev pub propose_call : Env → MessageInfo → String → ExecuteMsg → Exec Store Response
  propose_call env info title m = lift (h.message_binary m) >>= λ binary.
      execute_propose h env info title (wasm (WasmMsg.execute env.address binary []) ∷ [])

  propose_call-ok :
      (env : Env) (info : MessageInfo) (title : String) (m : ExecuteMsg) (s : Store) {r : Response}
      → (propose_call env info title m s).0 ≡ ok r
      → (binary : Binary) × (h.message_binary m ≡ ok binary)
        × (propose_call env info title m s
            ≡ execute_propose h env info title
                (wasm (WasmMsg.execute env.address binary []) ∷ [])
                s)
  propose_call-ok env info title m s e = elim (Result-cases (h.message_binary m)) [
    | inl (binary, encoded) ↦ (binary, encoded, ground (arith, encoded))
    | inr failed ↦ absurd (ground (arith, failed))
  ]

  -- A proposal to call the contract, carried by the proposer and the voters.
  pub call-Carried :
      (law : IsLawful h) (tally : IsTallying h) (querier : Querier) (env : Env) (id : ℕ)
      (d : Decimal) (info : MessageInfo) (title : String) (m : ExecuteMsg) (s : Store)
      {r : Response} {period : Duration}
      → (propose_call env info title m s).0 ≡ ok r
      → (propose_call env info title m s).1.proposal_count ≡ some id
      → s.max_voting_period ≡ some period
      → s.admin_voting_threshold ≡ some (absolute_percentage d)
      → h.is_expired (h.after period env.block) env.block ≡ false
      → (voters : List Addr) → Distinct voters
      → All (λ a. CanVote id (propose_call env info title m s).1 a) voters
      → 1 + length voters < u64_mod
      → d * get_number_of_admins s ≤ (1 + length voters) * 1000000000000000000
      → (info' : MessageInfo) → may_load info'.sender s.admins ≢ none
      → let t = run h (votes_by querier env id voters) (propose_call env info title m s).1 in
        let (result, u) = execute_process_proposal h env info' id t in
        ((binary : Binary) × (r' : Response) × (h.message_binary m ≡ ok binary)
          × (result ≡ ok r')
          × (r'.messages ≡ wasm (WasmMsg.execute env.address binary []) ∷ []))
        × Unmoved s u
  call-Carried law tally querier env id d info title m s {r} {period} e count has_period
        has_threshold running voters distinct can fits enough info' is_admin =
      let (binary, encoded, same) = propose_call-ok env info title m s e in
      let msgs = wasm (WasmMsg.execute env.address binary []) ∷ [] in
      let s1 = (execute_propose h env info title msgs s).1 in
      let t = run h (votes_by querier env id voters) s1 in
      let (r', works, sends) =
        process-votes_by h law tally querier env id d info title msgs s
          (sym (ap (λ x. x.0) same) ∙ e) (sym (ap (λ x. x.1.proposal_count) same) ∙ count)
          has_period has_threshold running voters distinct
          (subst (λ x. All (λ a. CanVote id x.1 a) voters) same can) fits enough info' is_admin in
      let kept =
        Unmoved-trans s t (execute_process_proposal h env info' id t).1
          (Unmoved-trans s s1 t (propose-Unmoved env info title msgs s)
            (votes_by-Unmoved querier env id voters s1))
          (process-Unmoved env info' id t) in
      subst
        (λ x.
          let (result, u) =
            execute_process_proposal h env info' id (run h (votes_by querier env id voters) x.1) in
          ((binary : Binary) × (r' : Response) × (h.message_binary m ≡ ok binary)
            × (result ≡ ok r')
            × (r'.messages ≡ wasm (WasmMsg.execute env.address binary []) ∷ []))
          × Unmoved s u)
        (sym same) ((binary, r', encoded, works, sends), kept)
