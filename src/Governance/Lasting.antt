-- ===== src/Governance/Lasting.antt =====
-- What no call undoes: the terms of a proposal, and the direction of its status.
use gringotts.Base.{ℕ, ◌+◌, ◌<◌, ◌≡◌, some, List, length, arith}
use gringotts.Word.{u64_mod}
use gringotts.Cosmos.{Env, MessageInfo, Proposal}
use gringotts.Host.{Host, IsLawful}
use gringotts.Msg.{InstantiateMsg}
use gringotts.Storage.{may_load}
use gringotts.Storage.Keys.{nat_key, ballot_key}
use gringotts.State.{Store}
use gringotts.Chain.{Call, run}
use gringotts.Contract.Instantiate.{instantiate}
use gringotts.Governance.Step.{gov}
use gringotts.Governance.Later.{terms, Onward}
use gringotts.Governance.Run.{nothing, instantiate-Sound, run-Sound, run-Later}

-- With a lawful host, from an instantiation in a storage without proposals on, and with fewer than 2^64
-- calls in all: a stored proposal stays stored under its id after any further calls, with the title, the
-- expiry, the messages, the threshold, the number of admins and the proposer that it had; its status is
-- then the same unless it was open, or was passed and is executed.
pub run-Onward :
    (h : Host) (law : IsLawful h) (env : Env) (info : MessageInfo) (msg : InstantiateMsg)
    (storage : Store)
    → gov storage ≡ nothing
    → (calls more : List Call) → length calls + length more < u64_mod
    → (id : ℕ) {p : Proposal}
    → let s = run h calls (instantiate h env info msg storage).1 in
      may_load id s.proposals ≡ some p
      → (q : Proposal) × (may_load id (run h more s).proposals ≡ some q)
        × (terms q ≡ terms p)
        × Onward p.status q.status
run-Onward h law env info msg storage empty calls more fits id {p} e =
    let start = (instantiate h env info msg storage).1 in
    let v =
      run-Sound h law calls start 0 (instantiate-Sound h env info msg storage empty)
        (omega arith) in
    let later = run-Later h law more (run h calls start) (0 + length calls) v (omega arith) in
    let (q, there, grown) = later.proposals_stay id p e in (q, there, grown.0, grown.1)
