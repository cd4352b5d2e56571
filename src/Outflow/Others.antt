-- ===== src/Outflow/Others.antt =====
-- What addresses get that the contract was not told to pay.
use mathlib.Core.Path.{subst}
use gringotts.Base.{◌≡◌, ◌≢◌, refl, sym, str_eq, String, List, [], ◌∷◌, All, arith}
use gringotts.Error.{Result, ok, err, panic}
use gringotts.Cosmos.{Addr, Env, MessageInfo, Response}
use gringotts.Host.{Host, IsLawful}
use gringotts.Msg.{InstantiateMsg}
use gringotts.State.{Store}
use gringotts.Chain.{Call, deliver, deliver_success, run_messages, messages_of}
use gringotts.Contract.Instantiate.{instantiate, save_initial}
use gringotts.Contract.Execute.{execute}
use gringotts.Accounting.Payments.{sent, sent-append}
use gringotts.Outflow.Own.{OwnCalls}
use gringotts.Outflow.Run.{AreAt, deliver-OwnCalls, start-OwnCalls}
use gringotts.Outflow.Receivers.{IsStranger}
use gringotts.Outflow.Strangers.{Spares, execute-sent}
use gringotts.Outflow.Addresses.{execute-IsStranger}

module _ (a denom : String) (h : Host) (law : IsLawful h) where
  messages_of-sent :
      (o : Result Response)
      → ((r : Response) → o ≡ ok r → sent a denom r.messages ≡ 0)
      → sent a denom (messages_of o) ≡ 0
  unfolding messages_of
  messages_of-sent (ok r) nothing = nothing r refl
  messages_of-sent (err _) nothing = refl
  messages_of-sent panic nothing = refl

  run-sent :
      (self : Addr) (calls : List Call)
      → AreAt self calls
      → All (λ c. Spares a c.env c.info c.msg) calls
      → (s : Store) → IsStranger a s
      → OwnCalls self s.proposals
      → sent a denom (run_messages h calls s) ≡ 0
  unfolding run_messages
  run-sent self [] at spared s stranger own = refl
  run-sent self (c ∷ calls) (here, at) (spares, spared) s stranger own =
      let s' = deliver h c s in
      let own' = subst (λ b. OwnCalls b s.proposals) (sym here) own in
      let stranger' =
        deliver_success h (IsStranger a) c s stranger
          (λ r e. execute-IsStranger a h c.env c.info s stranger c.querier c.msg spares) in
      let first = messages_of-sent (execute h c.querier c.env c.info c.msg s).0 (λ r e.
        execute-sent a denom h law c.env c.info s c.querier c.msg r stranger own' spares e) in
      let later =
        run-sent self calls at spared s' stranger'
          (subst (λ b. OwnCalls b s'.proposals) here (deliver-OwnCalls h law c s own')) in
      omega (
        arith,
        first,
        later,
        sent-append (λ b. str_eq b a) denom
            (messages_of (execute h c.querier c.env c.info c.msg s).0) (run_messages h calls s'),
      )

module _ (h : Host) (law : IsLawful h) (self : Addr) (env : Env) (info : MessageInfo)
    (msg : InstantiateMsg) (storage : Store) (empty : storage.proposals ≡ []) (calls : List Call)
    (at : AreAt self calls) where
  start-IsStranger :
      (a : Addr) {r : Response}
      → (instantiate h env info msg storage).0 ≡ ok r
      → msg.tranche.unlocked_token_distribution_address ≢ a
      → msg.tranche.staking_reward_distribution_address ≢ a
      → IsStranger a (instantiate h env info msg storage).1
  unfolding instantiate save_initial
  start-IsStranger a e unlock reward = ground arith

  -- With a lawful host, from a successful instantiation in a storage without proposals on, after any calls
  -- of the contract at one address: an address that is neither of the two of the tranche, and that no call
  -- of the contract of itself names as one to pay, is sent nothing by the responses of the calls that
  -- succeeded, in any denomination.
  pub sent-run_messages :
      {r : Response}
      → (instantiate h env info msg storage).0 ≡ ok r
      → (a denom : String) → msg.tranche.unlocked_token_distribution_address ≢ a
      → msg.tranche.staking_reward_distribution_address ≢ a
      → All (λ c. Spares a c.env c.info c.msg) calls
      → sent a denom (run_messages h calls (instantiate h env info msg storage).1) ≡ 0
  sent-run_messages e a denom unlock reward spared =
      run-sent a denom h law self calls at spared (instantiate h env info msg storage).1
        (start-IsStranger a e unlock reward)
        (start-OwnCalls h law self env info msg storage empty calls at)
