-- ===== src/Chain.antt =====
-- The contract on its chain: it is instantiated once, and then receives messages one after another,
-- from anyone and itself, with whatever blocks and answers of the querier. The chain keeps the writes
-- of a message that succeeded and reverts those of one that failed.
use gringotts.Base.{◌≡◌, refl, All, List, [], ◌∷◌, ◌++◌}
use gringotts.Error.{Result, ok, err, panic}
use gringotts.Cosmos.{CosmosMsg, Response, Env, MessageInfo}
use gringotts.Host.{Host, Querier}
use gringotts.Msg.{ExecuteMsg}
use gringotts.State.{Store}
use gringotts.Contract.Execute.{execute}

pub record Call : Type 0 where
  pub querier : Querier
  pub env : Env
  pub info : MessageInfo
  pub msg : ExecuteMsg

-- What the chain keeps of a call on a store.
unfoldable pub commit : {A : Type 0} → Store → Result A × Store → Store
commit s (ok _, s') = s'
commit s (err _, s') = s
commit s (panic, s') = s

-- The messages of a response. An error sends nothing.
unfoldable pub messages_of : Result Response → List CosmosMsg
messages_of (ok r) = r.messages
messages_of (err _) = []
messages_of panic = []

-- What holds before a call, and of what it wrote where it succeeds, holds of what is kept.
pub commit_success :
    {A : Type 0} (P : Store → Type 0) (s s' : Store) (r : Result A)
    → P s
    → ((a : A) → r ≡ ok a → P s')
    → P (commit s (r, s'))
unfolding commit
commit_success P s s' (ok a) p p' = p' a refl
commit_success P s s' (err _) p p' = p
commit_success P s s' panic p p' = p

module _ (h : Host) where
  unfoldable pub deliver : Call → Store → Store
  unfolding commit
  deliver c s = commit s (execute h c.querier c.env c.info c.msg s)

  unfoldable pub run : List Call → Store → Store
  unfolding deliver
  run [] s = s
  run (c ∷ calls) s = run calls (deliver c s)

  -- The messages of the calls that succeeded, in their order.
  unfoldable pub run_messages : List Call → Store → List CosmosMsg
  unfolding deliver messages_of
  run_messages [] s = []
  run_messages (c ∷ calls) s =
      messages_of (execute h c.querier c.env c.info c.msg s).0 ++ run_messages calls (deliver c s)

  pub deliver_success :
      (P : Store → Type 0) (c : Call) (s : Store)
      → P s
      → ((r : Response)
          → (execute h c.querier c.env c.info c.msg s).0 ≡ ok r
          → P (execute h c.querier c.env c.info c.msg s).1)
      → P (deliver c s)
  unfolding deliver
  deliver_success P c s =
      let (r, s') = execute h c.querier c.env c.info c.msg s in commit_success P s s' r

  pub deliver_either :
      (P : Store → Type 0) (c : Call) (s : Store)
      → P s
      → P (execute h c.querier c.env c.info c.msg s).1
      → P (deliver c s)
  deliver_either P c s p p' = deliver_success P c s p (λ r e. p')

  -- A predicate that every call keeps holds after any calls.
  pub run_induction :
      (P : Store → Type 0)
      → ((c : Call) (s : Store) → P s → P (deliver c s))
      → (calls : List Call) (s : Store) → P s
      → P (run calls s)
  unfolding run
  run_induction P step [] s p = p
  run_induction P step (c ∷ calls) s p = run_induction P step calls (deliver c s) (step c s p)

  -- A predicate that calls of a kind keep holds after any calls of that kind.
  pub run_induction_where :
      (P : Store → Type 0) (Q : Call → Type 0)
      → ((c : Call) (s : Store) → Q c → P s → P (deliver c s))
      → (calls : List Call) → All Q calls
      → (s : Store) → P s
      → P (run calls s)
  unfolding run
  run_induction_where P Q step [] all s p = p
  run_induction_where P Q step (c ∷ calls) (q, all) s p =
      run_induction_where P Q step calls all (deliver c s) (step c s q p)
