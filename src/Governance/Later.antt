-- ===== src/Governance/Later.antt =====
-- What stays of proposals and ballots as the contract goes on.
use mathlib.Core.Path.{subst}
use gringotts.Base.{
  ℕ, ◌+◌, ◌<◌, ◌==◌, ◌≡◌, ◌≢◌, ◌⊎◌, ◌∙◌, refl, sym, ap, none, some, String, List, arith, Bool-cases,
  inl, inr,
}
use gringotts.Word.{u64_mod}
use gringotts.Cosmos.{
  Addr, BlockInfo, CosmosMsg, Expiration, Threshold, Ballot, Status, pending, open_status, rejected,
  passed, executed, Proposal, yes_vote,
}
use gringotts.Host.{Host, IsLawful}
use gringotts.Storage.{Map, insert, may_load, may_load-insert}
use gringotts.Storage.Keys.{nat_key, ballot_key, ballot_beq_iff}
use gringotts.Governance.Step.{Gov, Step, idle, proposed, voted, processed, fresh, yes_ballot}
use gringotts.Governance.Sound.{Sound, fresh_lem}

-- The part of a proposal that is fixed when it is made.
pub record Terms : Type 0 where
  pub title : String
  pub expires : Expiration
  pub msgs : List CosmosMsg
  pub threshold : Threshold
  pub total_weight : ℕ
  pub proposer : Addr

abbrev pub terms : Proposal → Terms
terms p = record {
  title = p.title;
  expires = p.expires;
  msgs = p.msgs;
  threshold = p.threshold;
  total_weight = p.total_weight;
  proposer = p.proposer;
}

-- How a status may go on.
abbrev pub Onward : Status → Status → Type 0
Onward open_status t = Unit
Onward passed t = (t ≡ passed) ⊎ (t ≡ executed)
Onward s t = t ≡ s

Onward-refl : (s : Status) → Onward s s
Onward-refl pending = refl
Onward-refl open_status = tt
Onward-refl rejected = refl
Onward-refl passed = inl refl
Onward-refl executed = refl

Onward-trans : (s t u : Status) → Onward s t → Onward t u → Onward s u
Onward-trans open_status t u a b = tt
Onward-trans pending t u a b = subst (λ x. Onward x u) a b
Onward-trans rejected t u a b = subst (λ x. Onward x u) a b
Onward-trans executed t u a b = subst (λ x. Onward x u) a b
Onward-trans passed t u (inl a) b = subst (λ x. Onward x u) a b
Onward-trans passed t u (inr a) b = inr (subst (λ x. Onward x u) a b)

Onward-open : (s t : Status) → s ≡ open_status → Onward s t
Onward-open s t e = subst (λ x. Onward x t) (sym e) tt

Onward-executed : (s : Status) → (s ≢ open_status → s ≡ passed) → Onward s executed
Onward-executed pending f = ground (arith, f (λ e. cc))
Onward-executed open_status f = tt
Onward-executed rejected f = ground (arith, f (λ e. cc))
Onward-executed passed f = inr refl
Onward-executed executed f = refl

-- A later copy of a proposal.
abbrev pub Grown : Proposal → Proposal → Type 0
Grown p q = (terms q ≡ terms p) × Onward p.status q.status

pub record Later (g g' : Gov) : Type 0 where
  pub ballots_stay :
      (id : ℕ) (a : Addr) (b : Ballot)
      → may_load (id, a) g.ballots ≡ some b
      → may_load (id, a) g'.ballots ≡ some b
  pub proposals_stay :
      (id : ℕ) (p : Proposal)
      → may_load id g.proposals ≡ some p
      → (q : Proposal) × (may_load id g'.proposals ≡ some q) × Grown p q

Grown-trans : (p q r : Proposal) → Grown p q → Grown q r → Grown p r
Grown-trans p q r (a, b) (c, d) = (c ∙ a, Onward-trans p.status q.status r.status b d)

pub Later-refl : (g : Gov) → Later g g
Later-refl g = record {
  ballots_stay = λ id a b e. e;
  proposals_stay = λ id p e. (p, e, (refl, Onward-refl p.status));
}

pub Later-trans : (g g' g'' : Gov) → Later g g' → Later g' g'' → Later g g''
Later-trans g g' g'' l l' = record {
  ballots_stay = λ id a b e. l'.ballots_stay id a b (l.ballots_stay id a b e);
  proposals_stay = λ id p e.
      let (q, e', grown) = l.proposals_stay id p e in
      let (r, e'', grown') = l'.proposals_stay id q e' in (r, e'', Grown-trans p q r grown grown');
}

-- A proposal is saved over an earlier copy of itself, or where there was none.
save_proposal :
    (id : ℕ) (q : Proposal) (m : Map ℕ Proposal)
    → ((p : Proposal) → may_load id m ≡ some p → Grown p q)
    → (j : ℕ) (p : Proposal) → may_load j m ≡ some p
    → (r : Proposal) × (may_load j (insert id q m) ≡ some r) × Grown p r
save_proposal id q m grown j p e = elim (Bool-cases (id == j)) [
  | inl same ↦ (q, ground (arith, may_load-insert id j q m), grown p (ground arith))
  | inr other ↦ (p, ground (arith, may_load-insert id j q m), (refl, Onward-refl p.status))
]

save_ballot :
    (id : ℕ) (voter : Addr) (m : Map (ℕ × Addr) Ballot)
    → may_load (id, voter) m ≡ none
    → (j : ℕ) (a : Addr) (b : Ballot) → may_load (j, a) m ≡ some b
    → may_load (j, a) (insert (id, voter) yes_ballot m) ≡ some b
save_ballot id voter m absent j a b e =
    ground
      (arith, may_load-insert (id, voter) (j, a) yes_ballot m, ballot_beq_iff (id, voter) (j, a))

module _ (h : Host) (law : IsLawful h) (n : ℕ) (g : Gov) (v : Sound n g)
    (room : n + 1 < u64_mod) where
  updated_terms : (p : Proposal) (b : BlockInfo) → terms (h.update_status p b) ≡ terms p
  updated_terms p b = ap terms (law.update_status_lem p b)

  -- Only an open or a passed proposal is processed.
  processed_status :
      (p : Proposal) (b : BlockInfo)
      → (h.update_status p b).status ≡ passed
      → p.status ≢ open_status
      → p.status ≡ passed
  processed_status p b is_passed closed =
      sym (law.current_status_lem p b closed)
      ∙ sym (ap (λ q. q.status) (law.update_status_lem p b))
      ∙ is_passed

  voted-Grown :
      (p q : Proposal) (b : BlockInfo)
      → q ≡ p
      → p.status ≡ open_status
      → Grown q (h.update_status (record p { votes = h.add_vote p.votes yes_vote 1 }) b)
  voted-Grown p q b same is_open = (
    updated_terms (record p { votes = h.add_vote p.votes yes_vote 1 }) b ∙ sym (ap terms same),
    Onward-open q.status _ (ap (λ x. x.status) same ∙ is_open),
  )

  processed-Grown :
      (p q : Proposal) (b : BlockInfo)
      → q ≡ p
      → (h.update_status p b).status ≡ passed
      → Grown q (record (h.update_status p b) { status = executed })
  processed-Grown p q b same is_passed = (
    updated_terms p b ∙ sym (ap terms same),
    subst (λ x. Onward x.status executed) (sym same)
        (Onward-executed p.status (processed_status p b is_passed)),
  )

  pub Step-Later : (g' : Gov) → Step h g g' → Later g g'
  Step-Later g' (idle e) = subst (λ t. Later g t) (sym e) (Later-refl g)
  Step-Later g' (proposed p b voter one is_open e) =
      let new = fresh_lem n g v room in
      subst (λ t. Later g t) (sym e)
        (record {
          ballots_stay =
              save_ballot (fresh g) voter g.ballots (v.no_ballot (fresh g) voter (omega arith));
          proposals_stay =
              save_proposal (fresh g) _ g.proposals
                λ q there. absurd (ground (arith, there, v.no_proposal (fresh g)));
        })
  Step-Later g' (voted id p b voter present is_open unvoted e) =
      subst (λ t. Later g t) (sym e)
        (record {
          ballots_stay = save_ballot id voter g.ballots unvoted;
          proposals_stay =
              save_proposal id _ g.proposals
                λ q there. voted-Grown p q b (ground (arith, there, present)) is_open;
        })
  Step-Later g' (processed id p b present is_passed e) =
      subst (λ t. Later g t) (sym e)
        (record {
          ballots_stay = λ j a c there. there;
          proposals_stay =
              save_proposal id _ g.proposals
                λ q there. processed-Grown p q b (ground (arith, there, present)) is_passed;
        })
