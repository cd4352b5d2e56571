-- ===== src/State.antt =====
-- state.rs: the storage of the contract. An `Item` is a cell that may be empty, a `Map` an ordered
-- list of entries. `contract_info` is the cell of cw2.
use gringotts.Base.{ℕ, String, Option, some, List, length, get_or, ⊤}
use gringotts.Word.{add64}
use gringotts.Error.{Result, ok, or_not_found}
use gringotts.Exec.{Exec, pure, reads, save, ◌>>=◌, ◌>>◌}
use gringotts.Cosmos.{Addr, Timestamp, Ballot, Proposal, Duration, Threshold}
use gringotts.Storage.{Map, keys}
use gringotts.Msg.{EmptyStruct}

pub record ContractVersion : Type 0 where
  pub contract : String
  pub version : String

pub record Store : Type 0 where
  pub contract_info : Option ContractVersion
  pub denom : Option String
  pub vesting_timestamps : Option (List Timestamp)
  pub vesting_amounts : Option (List ℕ)
  pub total_amount : Option ℕ
  pub unlock_distribution_address : Option Addr
  pub staking_reward_address : Option Addr
  pub withdrawn_staking_rewards : Option ℕ
  pub withdrawn_unlocked : Option ℕ
  pub withdrawn_locked : Option ℕ
  pub admins : Map Addr EmptyStruct
  pub ops : Map Addr EmptyStruct
  pub max_voting_period : Option Duration
  pub admin_voting_threshold : Option Threshold
  pub proposal_count : Option ℕ
  pub ballots : Map (ℕ × Addr) Ballot
  pub proposals : Map ℕ Proposal

-- `ITEM.load(storage)?`
abbrev pub load : {A : Type 0} → (Store → Option A) → Store → Result A
load item s = or_not_found (item s)

unfoldable pub get_number_of_admins : Store → ℕ
get_number_of_admins s = length (keys s.admins)

unfoldable pub get_number_of_ops : Store → ℕ
get_number_of_ops s = length (keys s.ops)

unfoldable pub next_proposal_id : Exec Store ℕ
next_proposal_id = do
  count ← reads (λ s. ok s.proposal_count)
  let id = add64 (get_or count 0) 1
  save (λ s. record s { proposal_count = some id })
  pure id

-- `ITEM.update(storage, |old| Ok(f(old)))?`
abbrev pub update : {A : Type 0} → (Store → Option A) → (A → Store → Store) → (A → A) → Exec Store ⊤
update item write f = do old ← reads (load item); save (write (f old))
