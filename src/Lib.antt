-- ===== src/Lib.antt =====
-- A verification library for gringotts, a CosmWasm contract that locks tokens, lets them vest on a
-- schedule, stakes them meanwhile, and is governed by a group of admins.
--
-- The program. The contract is instantiated with a tranche (amounts, the times at which they vest, and
-- two addresses that are paid), admins and operators. Operators stake the locked tokens, withdraw what
-- has vested and send on staking rewards. Admins change the operators, make proposals and vote on them;
-- a proposal that passed sends its messages, among them the calls that only the contract itself may
-- make: changes of the admins and of the addresses, and the emergency withdrawal. Anyone may query.
--
-- The model. A handler is a function to `Exec Store Response`, from a store to a result and the store
-- that it leaves, with the writes before an error kept; `Chain` is what the host does with them: it
-- keeps the store of a message that succeeded and reverts the others.
--
--   State, Storage    state.rs. `Store` has a field for each `Item` and `Map`; a map is a list of
--                     entries in the order of the keys, with load, save and remove. Its children
--                     have the order of the bytes, and what a map in that order is determined by.
--   Word              the u64 and u128 arithmetic, which wraps: Cargo.toml has no overflow checks.
--   Error, Exec       error.rs, results with `panic` for `unwrap` and for indices out of range; calls.
--   Cosmos, Msg       the data types of cosmwasm_std, cw3 and cw_utils; msg.rs.
--   Host              what those packages and the chain compute: `Querier` is the chain's querier,
--                     `Host` has `Timestamp::seconds`, `Duration::after`, `Expiration::is_expired`,
--                     `Votes::add_vote`, `Proposal::current_status`, `Proposal::update_status`,
--                     `Threshold::to_response` and `to_binary`. They are parameters; `IsLawful` states
--                     their documented behaviour, `IsTallying` how a status follows from the tally of
--                     a percentage, `IsCounting` that a proposal passes only so, and
--                     `IsAnswering` (Accounting/Panics) that a query of the chain returns.
--                     The functions are total, but for the encodings.
--                     Tests/Fixtures has a host and a querier with these.
--   Permission        permission.rs.
--   Vesting           vesting.rs: `collect_vested` with its loop (`collect_from`) and its writes
--                     (`save_remaining`), `total_vested_amount`, `distribute_vested`. Its children
--                     have the abstract schedule that the two lists stand for, and the refinement.
--   Tranche           data_structure.rs: `Tranche::validate` and `Tranche::validate_timestamps`.
--   Staking           staking.rs.
--   Contract          contract.rs: Instantiate, Execute (the dispatch), Ops, Withdraw, Rewards,
--                     Propose, Vote, Internal, Query and Migrate, each handler under its own name.
--   Chain             a life of the contract: calls from anyone, one after another, and the messages
--                     of the responses.
--   Access            which role each message needs.
--   Accounting        the accounts: the invariant `IsBalanced`, withdrawals, rewards, what is reported,
--                     what is left at the end of the schedule, the number of withdrawals, and where a
--                     handler could panic.
--   Outflow           what responses pay, summed over a life of the contract, and to whom,
--                     and the messages that proposals carry.
--   Governance        proposals and ballots as a state machine, its invariant, what stays, when a vote
--                     or a processing succeeds, how a proposal is carried, and what it does then.
--   Setup             the instantiation, and the answers after it.
--   Roles             who may change what, and the lists of the members.
--   Migration         the outcomes of `migrate`.
--   UnitTests         the `#[cfg(test)]` modules: each test under its own name, as a call on the storage
--                     that panics where an assertion or an `unwrap` does. `Mock` has the functions of
--                     cosmwasm_std::testing, of `Timestamp` and `from_binary` as parameters.
--   Tests             runs at concrete inputs, the unit tests among them, and each theorem applied
--                     there.
--
-- The files are src/*.rs of the repository.
--
-- Bounds. Amounts are u128 and ids, votes and times are u64, with the wrap written out. Theorems over a
-- life of the contract ask for fewer than 2^64 calls, so that ids and vote counts do not wrap. The
-- loops of the source are structural recursions on the lists that they run over. The digits of a number
-- take fuel 20 (Base/Decimal): a u64 is below 10^20.
--
-- Not modelled: the encoding of messages and answers (`to_binary` is a parameter of the model), the
-- texts of errors, JSON schemas, the rules by which cw3 decides a status, and the panics of cosmwasm_std,
-- cw3 and cw_utils (a `Timestamp` that overflows, a threshold above 100 percent). The messages that a
-- response holds are values: what the chain does with them later is a further call.
pub mod Base
pub mod Word
pub mod Error
pub mod Exec
pub mod Cosmos
pub mod Storage
pub mod Msg
pub mod Host
pub mod State
pub mod Permission
pub mod Vesting
pub mod Tranche
pub mod Staking
pub mod Contract
pub mod Access
pub mod Chain
pub mod Governance
pub mod Migration
pub mod Outflow
pub mod Setup
pub mod Roles
pub mod Accounting
pub mod UnitTests
pub mod Tests
