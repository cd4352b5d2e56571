-- ===== src/Outflow/Run.antt =====
-- What is paid over the life of the contract.
use mathlib.Core.Path.{subst}
use gringotts.Base.{
  ℕ, String, ◌+◌, ◌%◌, ◌<◌, ◌≡◌, ◌∙◌, refl, sym, ap, true, some, List, [], ◌∷◌, All, sum, arith,
}
use gringotts.Word.{u128_mod}
use gringotts.Error.{Result, ok, err, panic}
use gringotts.Cosmos.{Addr, Env, MessageInfo, Response}
use gringotts.Host.{Host, IsLawful}
use gringotts.Msg.{InstantiateMsg}
use gringotts.State.{Store}
use gringotts.Chain.{Call, commit, deliver, deliver_success, run, messages_of, run_messages}
use gringotts.Contract.Instantiate.{instantiate, save_initial}
use gringotts.Contract.Execute.{execute}
use gringotts.Contract.Vote.{execute_process_proposal}
use gringotts.Accounting.Sound.{IsBalanced}
use gringotts.Accounting.Total.{execute-fixed}
use gringotts.Accounting.Payments.{paid, sent-append}
use gringotts.Accounting.Conservation.{instantiate-IsBalanced, deliver-IsBalanced}
use gringotts.Outflow.Own.{IsOwnCall, OwnCalls, execute-OwnCalls, process-OwnCalls}
use gringotts.Outflow.Paid.{withdrawn, Pays, execute-Pays}

-- Calls of the contract at one address.
abbrev pub AreAt : Addr → List Call → Type 0
AreAt self = All (λ c. c.env.address ≡ self)

module _ (h : Host) (law : IsLawful h) where
  pub deliver-OwnCalls :
      (c : Call) (s : Store)
      → OwnCalls c.env.address s.proposals
      → OwnCalls c.env.address (deliver h c s).proposals
  deliver-OwnCalls c s own =
      deliver_success h (λ t. OwnCalls c.env.address t.proposals) c s own
        (λ r e. execute-OwnCalls h law c.env c.info s own c.querier c.msg e)

  pub run-OwnCalls :
      (self : Addr) (calls : List Call)
      → AreAt self calls
      → (s : Store) → OwnCalls self s.proposals
      → OwnCalls self (run h calls s).proposals
  unfolding run
  run-OwnCalls self [] at s own = own
  run-OwnCalls self (c ∷ calls) (here, at) s own = run-OwnCalls self calls at (deliver h c s) (
      subst (λ a. OwnCalls a (deliver h c s).proposals) here
        (deliver-OwnCalls c s (subst (λ a. OwnCalls a s.proposals) (sym here) own)))

  commit-Pays :
      (denom : String) (s s' : Store) (o : Result Response)
      → ((r : Response) → o ≡ ok r → Pays denom s s' r)
      → (withdrawn s + paid denom (messages_of o)) % u128_mod
        ≡ withdrawn (commit s (o, s')) % u128_mod
  unfolding commit messages_of
  commit-Pays denom s s' (ok r) pays = pays r refl
  commit-Pays denom s s' (err _) pays = omega arith
  commit-Pays denom s s' panic pays = omega arith

  deliver-Pays :
      (c : Call) (s : Store) (v : IsBalanced s)
      → OwnCalls c.env.address s.proposals
      → (withdrawn s + paid v.denom (messages_of (execute h c.querier c.env c.info c.msg s).0))
          % u128_mod
        ≡ withdrawn (deliver h c s) % u128_mod
  unfolding deliver
  deliver-Pays c s v own =
      commit-Pays v.denom s (execute h c.querier c.env c.info c.msg s).1
        (execute h c.querier c.env c.info c.msg s).0
        (execute-Pays c.env c.info s v h law own c.querier c.msg)

  deliver-denom : (c : Call) (s : Store) → (deliver h c s).denom ≡ s.denom
  unfolding deliver commit
  deliver-denom c s = ground (arith, ap (λ p. p.0) (execute-fixed h c.querier c.env c.info c.msg s))

  run-Pays :
      (self denom : String) (calls : List Call)
      → AreAt self calls
      → (s : Store) → IsBalanced s
      → s.denom ≡ some denom
      → OwnCalls self s.proposals
      → (withdrawn s + paid denom (run_messages h calls s)) % u128_mod
        ≡ withdrawn (run h calls s) % u128_mod
  unfolding run run_messages
  run-Pays self denom [] at s v e own = omega arith
  run-Pays self denom (c ∷ calls) (here, at) s v e own =
      let s' = deliver h c s in
      let own' = subst (λ a. OwnCalls a s.proposals) (sym here) own in
      let same : v.denom ≡ denom = ground (arith, e, v.has_denom) in
      let later =
        run-Pays self denom calls at s' (deliver-IsBalanced h c s v) (deliver-denom c s ∙ e)
          (subst (λ a. OwnCalls a s'.proposals) here (deliver-OwnCalls c s own')) in
      let first =
        subst
          (λ d.
            (withdrawn s + paid d (messages_of (execute h c.querier c.env c.info c.msg s).0))
              % u128_mod
            ≡ withdrawn s' % u128_mod)
          same (deliver-Pays c s v own') in
      omega (
        arith,
        first,
        later,
        sent-append (λ a. true) denom (messages_of (execute h c.querier c.env c.info c.msg s).0)
            (run_messages h calls s'),
      )

  module _ (self : Addr) (env : Env) (info : MessageInfo) (msg : InstantiateMsg) (storage : Store)
      (empty : storage.proposals ≡ []) (calls : List Call) (at : AreAt self calls) where
    start_proposals : (instantiate h env info msg storage).1.proposals ≡ []
    unfolding instantiate save_initial
    start_proposals = ground arith

    pub start-OwnCalls : OwnCalls self (instantiate h env info msg storage).1.proposals
    start-OwnCalls = subst (λ m. OwnCalls self m) (sym start_proposals) tt

    start_lem :
        {r : Response}
        → (instantiate h env info msg storage).0 ≡ ok r
        → ((instantiate h env info msg storage).1.denom ≡ some msg.tranche.denom)
          × (withdrawn (instantiate h env info msg storage).1 ≡ 0)
    unfolding instantiate save_initial
    start_lem e = ground arith

    -- With a lawful host, from a successful instantiation in a storage without proposals on, with amounts
    -- that sum to a u128 and any calls of the contract at one address: the responses of the calls that
    -- succeeded pay in all, in the denomination of the tranche and to whomever, what the store counts as
    -- withdrawn unlocked, withdrawn locked and withdrawn as rewards, modulo 2^128.
    pub paid-run_messages :
        {r : Response}
        → (instantiate h env info msg storage).0 ≡ ok r
        → sum msg.tranche.vesting_amounts < u128_mod
        → let s = (instantiate h env info msg storage).1 in
          paid msg.tranche.denom (run_messages h calls s) % u128_mod
          ≡ withdrawn (run h calls s) % u128_mod
    paid-run_messages {r} e fits =
        let s = (instantiate h env info msg storage).1 in
        let (has_denom, unpaid) = start_lem e in
        omega (
          arith,
          unpaid,
          run-Pays self msg.tranche.denom calls at s
              (instantiate-IsBalanced h env info msg storage r e fits) has_denom start-OwnCalls,
        )

    -- With a lawful host, after an instantiation in a storage without proposals and any calls of the
    -- contract at one address: a proposal that is processed there sends calls of the contract itself
    -- without funds, and governance votes, and nothing else.
    pub process-IsOwnCall :
        (env' : Env) (info' : MessageInfo) (id : ℕ) {r : Response}
        → env'.address ≡ self
        → (execute_process_proposal h env' info' id
            (run h calls (instantiate h env info msg storage).1)).0
          ≡ ok r
        → All (λ c. IsOwnCall self c) r.messages
    process-IsOwnCall env' info' id {r} here e =
        let s = run h calls (instantiate h env info msg storage).1 in
        let own =
          run-OwnCalls self calls at (instantiate h env info msg storage).1 start-OwnCalls in
        subst (λ a. All (λ c. IsOwnCall a c) r.messages) here
          (process-OwnCalls h law env' info' s (subst (λ a. OwnCalls a s.proposals) (sym here) own)
            id e).1
