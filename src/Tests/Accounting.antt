-- ===== src/Tests/Accounting.antt =====
-- The accounts at a concrete contract.
use gringotts.Base.{ℕ, ◌≤◌, get_or, ◌≡◌, refl, [], ◌∷◌, List, some, sum, arith}
use gringotts.Word.{add64, add128}
use gringotts.Tranche.{validate}
use gringotts.Error.{ok}
use gringotts.Cosmos.{MessageInfo, new_response}
use gringotts.Msg.{ExecuteMsg}
use gringotts.State.{Store}
use gringotts.Chain.{Call, run}
use gringotts.Contract.Instantiate.{instantiate}
use gringotts.Accounting.Sound.{IsBalanced}
use gringotts.Accounting.Conservation.{conservation}
use gringotts.Accounting.Ends.{withdrawals, withdrawals-instantiate}
use gringotts.Accounting.Early.{due, withdrawn_unlocked-due}
use gringotts.Tests.Fixtures.{host, querier, env_at, sent_by, usei, setup, blank}

abbrev pub deployer : MessageInfo
deployer = record { sender = "deployer"; funds = usei 30 ∷ [] }

abbrev pub deployed : Store
deployed = (instantiate host (env_at 1000000000) deployer setup blank).1

abbrev pub call : ℕ → MessageInfo → ExecuteMsg → Call
call now info msg = record { querier = querier; env = env_at now; info = info; msg = msg }

pub instantiate-setup :
    (instantiate host (env_at 1000000000) deployer setup blank).0 ≡ ok new_response
unfolding instantiate validate add128 add64
instantiate-setup = refl

abbrev pub calls : List Call
calls =
    call 3000000000 (sent_by "voter5") (ExecuteMsg.initiate_withdraw_unlocked 18)
    ∷ call 3000000000 (sent_by "voter5") (ExecuteMsg.initiate_withdraw_unlocked 2)
    ∷ call 3000000000 (sent_by "contract") (ExecuteMsg.internal_withdraw_locked "safe")
    ∷ []

conservation_example :
    IsBalanced (run host calls deployed)
    × ((run host calls deployed).total_amount ≡ some (sum setup.tranche.vesting_amounts))
conservation_example =
    conservation host (env_at 1000000000) deployer setup blank instantiate-setup (omega arith) calls

-- Of 30 tokens 19 are due at the third second, when 18 are withdrawn.
withdrawn_unlocked-due_example :
    get_or (run host calls deployed).withdrawn_unlocked 0
    ≤ due 3000000000 setup.tranche.vesting_timestamps setup.tranche.vesting_amounts
withdrawn_unlocked-due_example =
    withdrawn_unlocked-due host (env_at 1000000000) deployer setup blank instantiate-setup
      (omega arith) 3000000000 calls (omega arith, (omega arith, (omega arith, tt)))

withdrawals-instantiate_example :
    withdrawals host calls deployed ≤ sum setup.tranche.vesting_amounts
withdrawals-instantiate_example =
    withdrawals-instantiate host (env_at 1000000000) deployer setup blank instantiate-setup
      (omega arith) calls
