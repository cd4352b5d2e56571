-- ===== src/Governance/Ids.antt =====
-- The proposals are stored under the ids 1, 2, … up to their count.
use mathlib.Core.Path.{subst}
use mathlib.Core.List.{reverse_aux}
use gringotts.Base.{
  ℕ, zero, suc, ◌+◌, ◌≤◌, ◌<◌, ◌≡◌, ◌∙◌, refl, sym, ap, some, List, [], ◌∷◌, map, reverse, length,
  arith,
}
use gringotts.Word.{u64_mod}
use gringotts.Error.{ok}
use gringotts.Cosmos.{Proposal, BlockInfo, Env, MessageInfo}
use gringotts.Host.{Host, IsLawful}
use gringotts.Msg.{InstantiateMsg, ProposalResponse}
use gringotts.State.{Store}
use gringotts.Chain.{Call, run}
use gringotts.Contract.Instantiate.{instantiate}
use gringotts.Contract.Query.{query_proposals, map_proposal}
use gringotts.Governance.Run.{nothing, gov-instantiate, instantiate-Sound, run_steps}
use gringotts.Storage.{Map, keys, may_load, insert}
use gringotts.Storage.Keys.{nat_key}
use gringotts.Governance.Step.{gov, Gov, Step, idle, proposed, voted, processed}
use gringotts.Governance.Sound.{Sound, count, fresh_lem}

-- The `n` numbers from `a` on.
abbrev pub ids_from : ℕ → ℕ → List ℕ
ids_from a zero = []
ids_from a (suc n) = a ∷ ids_from (suc a) n

module _ {V : Type 0} where
  insert_last :
      (n a : ℕ) (v : V) (m : Map ℕ V)
      → keys m ≡ ids_from a n
      → keys (insert (a + n) v m) ≡ ids_from a (suc n)
  unfolding insert
  insert_last zero a v [] e = ground arith
  insert_last (suc n) a v [] e = absurd (ground arith)
  insert_last zero a v ((j, w) ∷ m) e = absurd (ground arith)
  insert_last (suc n) a v ((j, w) ∷ m) e = ground (arith, e, insert_last n (suc a) v m)

  insert_again :
      (n a k : ℕ) (v : V) (m : Map ℕ V)
      → keys m ≡ ids_from a n
      → a ≤ k
      → k < a + n
      → keys (insert k v m) ≡ ids_from a n
  unfolding insert
  insert_again zero a k v m e le lt = absurd (omega arith)
  insert_again (suc n) a k v [] e le lt = absurd (ground arith)
  insert_again (suc n) a k v ((j, w) ∷ m) e le lt = ground (arith, e, insert_again n (suc a) k v m)

  stored_range :
      (n a k : ℕ) (v : V) (m : Map ℕ V)
      → keys m ≡ ids_from a n
      → may_load k m ≡ some v
      → (a ≤ k) × (k < a + n)
  unfolding may_load
  stored_range zero a k v [] e there = absurd (ground arith)
  stored_range zero a k v ((j, w) ∷ m) e there = absurd (ground arith)
  stored_range (suc n) a k v [] e there = absurd (ground arith)
  stored_range (suc n) a k v ((j, w) ∷ m) e there =
      ground (arith, e, there, stored_range n (suc a) k v m)

abbrev pub Listed : Gov → Type 0
Listed g = keys g.proposals ≡ ids_from 1 (count g)

module _ (h : Host) (n : ℕ) (g : Gov) (v : Sound n g) (room : n + 1 < u64_mod) where
  pub Step-Listed : (g' : Gov) → Step h g g' → Listed g → Listed g'
  Step-Listed g' (idle e) l = subst (λ t. Listed t) (sym e) l
  Step-Listed g' (proposed p b voter one is_open e) l =
      let c = count g in
      let q = h.update_status p b in
      let last : keys (insert (suc c) q g.proposals) ≡ ids_from 1 (suc c) =
        subst (λ k. keys (insert k q g.proposals) ≡ ids_from 1 (suc c)) (omega arith)
          (insert_last c 1 q g.proposals l) in
      subst (λ t. Listed t) (sym e)
        (subst (λ k. keys (insert k q g.proposals) ≡ ids_from 1 k)
          (omega (arith, fresh_lem n g v room)) last)
  Step-Listed g' (voted id p b voter present is_open unvoted e) l =
      let (le, lt) = stored_range (count g) 1 id p g.proposals l present in
      subst (λ t. Listed t) (sym e) (insert_again (count g) 1 id _ g.proposals l le lt)
  Step-Listed g' (processed id p b present is_passed e) l =
      let (le, lt) = stored_range (count g) 1 id p g.proposals l present in
      subst (λ t. Listed t) (sym e) (insert_again (count g) 1 id _ g.proposals l le lt)

module _ (h : Host) (block : BlockInfo) where
  ids-map_proposal : (m : Map ℕ Proposal) → map (λ r. r.id) (map (map_proposal h block) m) ≡ keys m
  unfolding map_proposal
  ids-map_proposal [] = refl
  ids-map_proposal (e ∷ m) = ap (λ l. e.0 ∷ l) (ids-map_proposal m)

keys-reverse_aux :
    {V : Type 0} (xs ys : Map ℕ V) → keys (reverse_aux xs ys) ≡ reverse_aux (keys xs) (keys ys)
keys-reverse_aux [] ys = refl
keys-reverse_aux (x ∷ xs) ys = keys-reverse_aux xs (x ∷ ys)

-- With a lawful host, after an instantiation in a storage without proposals and fewer than 2^64 calls:
-- `query_proposals` lists one proposal for each of the ids from the count down to 1, in this order.
pub ids-query_proposals :
    (h : Host)
    → IsLawful h
    → (env : Env) (info : MessageInfo) (msg : InstantiateMsg) (storage : Store)
    → gov storage ≡ nothing
    → (calls : List Call) → length calls < u64_mod
    → (env' : Env) {proposals : List ProposalResponse}
    → let s = run h calls (instantiate h env info msg storage).1 in
      query_proposals h env' s ≡ ok proposals
      → map (λ p. p.id) proposals ≡ reverse (ids_from 1 (count (gov s)))
unfolding query_proposals
ids-query_proposals h law env info msg storage empty calls fits env' {proposals} e =
    let s = run h calls (instantiate h env info msg storage).1 in
    let start : Listed (gov (instantiate h env info msg storage).1) =
      subst (λ g. Listed g) (sym (gov-instantiate h env info msg storage ∙ empty)) refl in
    let listed =
      run_steps h law Listed (λ n g g' v room step l. Step-Listed h n g v room g' step l) calls
        (instantiate h env info msg storage).1 0 (instantiate-Sound h env info msg storage empty)
        (omega arith) start in
    let answered : map (map_proposal h env'.block) (reverse s.proposals) ≡ proposals =
      ground (arith, e) in
    sym (ap (λ l. map (λ (p : ProposalResponse). p.id) l) answered)
    ∙ ids-map_proposal h env'.block (reverse s.proposals)
    ∙ keys-reverse_aux s.proposals []
    ∙ ap (λ l. reverse l) listed
