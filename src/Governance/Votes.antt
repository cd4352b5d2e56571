-- ===== src/Governance/Votes.antt =====
-- Counting the ballots of a proposal.
use gringotts.Base.{
  ℕ, ◌+◌, ◌≤◌, ◌==◌, ◌≡◌, refl, if◌then◌else◌, [], ◌∷◌, length, none, arith, str_eq_iff, Bool-cases,
  inl, inr,
}
use gringotts.Cosmos.{Addr, Ballot}
use gringotts.Storage.{Map, may_load, insert}
use gringotts.Storage.Keys.{ballot_key}
use gringotts.Contract.Query.{votes_of}

abbrev pub Ballots : Type 0
Ballots = Map (ℕ × Addr) Ballot

abbrev pub tally : ℕ → Ballots → ℕ
tally id m = length (votes_of id m)

pub tally-le-length : (id : ℕ) (m : Ballots) → tally id m ≤ length m
unfolding votes_of
tally-le-length id [] = omega arith
tally-le-length id (((i, a), b) ∷ m) = ground (arith, tally-le-length id m)

-- A ballot under a new key is one more for its proposal, and for no other.
pub tally-insert :
    (id j : ℕ) (a : Addr) (b : Ballot) (m : Ballots)
    → may_load (j, a) m ≡ none
    → tally id (insert (j, a) b m) ≡ (if j == id then tally id m + 1 else tally id m)
unfolding votes_of insert may_load
tally-insert id j a b [] e = ground arith
tally-insert id j a b (((i, c), d) ∷ m) e = ground (arith, tally-insert id j a b m)

pub length-insert :
    (j : ℕ) (a : Addr) (b : Ballot) (m : Ballots) → length (insert (j, a) b m) ≤ length m + 1
unfolding insert
length-insert j a b [] = omega arith
length-insert j a b (((i, c), d) ∷ m) = ground (arith, length-insert j a b m)

-- A proposal that has no ballot of anyone has none.
pub tally-zero : (id : ℕ) (m : Ballots) → ((a : Addr) → may_load (id, a) m ≡ none) → tally id m ≡ 0
unfolding votes_of may_load
tally-zero id [] absent = refl
tally-zero id (((i, a), b) ∷ m) absent = elim (Bool-cases (i == id)) [
  | inl same ↦ absurd (ground (arith, absent a, str_eq_iff a a))
  | inr other ↦ ground (arith, tally-zero id m (λ x. ground (arith, absent x)))
]
