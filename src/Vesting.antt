-- ===== src/Vesting.antt =====
-- vesting.rs: the vesting schedule, in two parallel lists of timestamps and amounts.
mod Collect
mod Reads
pub mod Schedule
mod Loop
pub mod Refinement
pub mod Totals
unfoldable pub use Collect.{
  collect_from, slice_from, subtract_first, save_remaining, collect_vested,
}
unfoldable pub use Reads.{total_from, total_vested_amount, distribute_vested}
