-- ===== src/Vesting/Reads.antt =====
-- `total_vested_amount` and `distribute_vested` of vesting.rs, which read the storage.
use gringotts.Base.{ℕ, suc, ◌==◌, leb, if◌then◌else◌, List, [], ◌∷◌, get_elem?, none, some}
use gringotts.Word.{add128}
use gringotts.Error.{Result, ok, panic, ◌>>=◌}
use gringotts.Cosmos.{Timestamp, Response, bank, send, coins, add_message}
use gringotts.State.{Store, load}

-- The loop of `total_vested_amount` at round `i`, on the timestamps that are left.
unfoldable pub total_from : Timestamp → List Timestamp → ℕ → List ℕ → ℕ → Result ℕ
total_from now [] i amounts total = ok total
total_from now (ts ∷ rest) i amounts total =
    if leb ts now
    then elim (get_elem? amounts i) [
      | none ↦ panic
      | some amount ↦ total_from now rest (suc i) amounts (add128 total amount)
    ]
    else ok total

unfoldable pub total_vested_amount : Timestamp → Store → Result ℕ
unfolding total_from
total_vested_amount now s = do
  vesting_timestamps ← load (λ t. t.vesting_timestamps) s
  vesting_amounts ← load (λ t. t.vesting_amounts) s
  total_from now vesting_timestamps 0 vesting_amounts 0

unfoldable pub distribute_vested : ℕ → Response → Store → Result Response
distribute_vested amount response s = if amount == 0 then ok response else do
  addr ← load (λ t. t.unlock_distribution_address) s
  denom ← load (λ t. t.denom) s
  ok (add_message response (bank (send addr (coins amount denom))))
