-- ===== src/Tranche/Spec.antt =====
-- What a valid tranche is, with no reference to the loops that check it.
use gringotts.Base.{
  ℕ, ◌+◌, ◌/◌, ◌≤◌, ◌<◌, ◌≡◌, ◌≢◌, str_eq, if◌then◌else◌, String, List, [], ◌∷◌, length, sum, All,
}
use gringotts.Cosmos.{Timestamp, Coin}
use gringotts.Msg.{Tranche}

abbrev pub nanos_in_second : ℕ
nanos_in_second = 1000000000

-- Strictly increasing, from a first value on.
abbrev pub IncreasesFrom : ℕ → List ℕ → Type 0
IncreasesFrom last [] = Unit
IncreasesFrom last (t ∷ ts) = (last < t) × IncreasesFrom t ts

-- Not in the past, and at most a hundred years of whole seconds ahead.
abbrev pub IsInWindow : Timestamp → Timestamp → Type 0
IsInWindow now t = (now ≤ t) × (t / nanos_in_second ≤ now / nanos_in_second + 3153600000)

abbrev pub IsSchedulable : Timestamp → List Timestamp → Type 0
IsSchedulable now ts = IncreasesFrom 0 ts × All (IsInWindow now) ts

-- The coins of one denomination, with no bound on the sum.
unfoldable pub deposited : String → List Coin → ℕ
deposited denom [] = 0
deposited denom (fund ∷ funds) =
    (if str_eq fund.denom denom then fund.amount else 0) + deposited denom funds

pub record IsValid (tranche : Tranche) (now : Timestamp) (funds : List Coin) : Type 0 where
  pub same_length : length tranche.vesting_amounts ≡ length tranche.vesting_timestamps
  pub non_empty : tranche.vesting_amounts ≢ []
  pub positive : All (λ a. 0 < a) tranche.vesting_amounts
  pub covered : sum tranche.vesting_amounts ≤ deposited tranche.denom funds
  pub schedulable : IsSchedulable now tranche.vesting_timestamps
