-- ===== src/Tranche.antt =====
-- `Tranche::validate` and `Tranche::validate_timestamps` of data_structure.rs.
pub mod Spec
pub mod Validate
pub mod Overflow
use gringotts.Base.{
  is_empty, ℕ, ◌+◌, ◌*◌, ◌==◌, ltb, leb, not, str_eq, if◌then◌else◌, String, List, [], ◌∷◌, length,
  ⊤, Bool, true, false,
}
use gringotts.Word.{add64, add128}
use gringotts.Error.{Result, ok, err, invalid_tranche, guard, ◌>>=◌, ◌>>◌}
use gringotts.Cosmos.{Timestamp, Coin, Env}
use gringotts.Host.{Host}
use gringotts.Msg.{Tranche}

abbrev pub hundred_years_in_seconds : ℕ
hundred_years_in_seconds = 100 * 365 * 24 * 60 * 60

-- The loop over the amounts: their sum, unless one is zero.
unfoldable pub total_amount_from : ℕ → List ℕ → Result ℕ
total_amount_from total [] = ok total
total_amount_from total (amount ∷ amounts) =
    if amount == 0
    then err (invalid_tranche "zero vesting amount is not allowed")
    else total_amount_from (add128 total amount) amounts

-- The loop over the funds: what was deposited in the denomination.
unfoldable pub deposited_from : String → ℕ → List Coin → ℕ
deposited_from denom deposited [] = deposited
deposited_from denom deposited (fund ∷ funds) =
    deposited_from denom
      (if str_eq fund.denom denom then add128 deposited fund.amount else deposited) funds

module _ (h : Host) where
  -- The loop over the timestamps, after one at `last_ts_nanos`.
  unfoldable pub validate_timestamps_from : Env → ℕ → List Timestamp → Result ⊤
  validate_timestamps_from env last_ts_nanos [] = ok tt
  validate_timestamps_from env last_ts_nanos (ts ∷ rest) =
      if leb ts last_ts_nanos
      then err (invalid_tranche "vesting schedule must be monotonic increasing")
      else if ltb ts env.block.time
      then err (invalid_tranche "Timestamp nanoseconds are out of range")
      else if ltb (add64 (h.seconds env.block.time) hundred_years_in_seconds) (h.seconds ts)
      then err (invalid_tranche "Timestamp is too far in the future")
      else validate_timestamps_from env ts rest

  unfoldable pub validate_timestamps : Tranche → Env → Result ⊤
  unfolding validate_timestamps_from
  validate_timestamps tranche env = validate_timestamps_from env 0 tranche.vesting_timestamps

  unfoldable pub validate : Tranche → Env → List Coin → Result ⊤
  unfolding total_amount_from deposited_from validate_timestamps
  validate tranche env funds = do
    guard (length tranche.vesting_amounts == length tranche.vesting_timestamps)
        (invalid_tranche "mismatched vesting amounts and schedule")
    guard (not (is_empty tranche.vesting_amounts)) (invalid_tranche "nothing to vest")
    total_vesting_amount ← total_amount_from 0 tranche.vesting_amounts
    let deposited_amount = deposited_from tranche.denom 0 funds
    guard (leb total_vesting_amount deposited_amount)
        (invalid_tranche "insufficient deposit for the vesting plan")
    validate_timestamps tranche env
    ok tt
