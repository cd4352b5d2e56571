-- ===== src/Governance/Run.antt =====
-- Proposals and ballots over the life of the contract.
use mathlib.Core.Path.{subst}
use gringotts.Base.{ℕ, ◌+◌, ◌<◌, ◌≡◌, ◌∙◌, refl, sym, none, List, [], ◌∷◌, length, arith}
use gringotts.Word.{u64_mod}
use gringotts.Cosmos.{Env, MessageInfo}
use gringotts.Host.{Host, IsLawful}
use gringotts.Msg.{InstantiateMsg}
use gringotts.Storage.{may_load}
use gringotts.State.{Store}
use gringotts.Chain.{Call, deliver, run}
use gringotts.Contract.Instantiate.{instantiate, save_initial}
use gringotts.Governance.Step.{Gov, gov, Step}
use gringotts.Governance.Frame.{deliver-Step}
use gringotts.Governance.Sound.{Sound, Step-Sound}
use gringotts.Governance.Later.{Later, Later-refl, Later-trans, Step-Later}

-- The part of an empty storage.
abbrev pub nothing : Gov
nothing = record { proposal_count = none; ballots = []; proposals = [] }

nothing-Sound : Sound 0 nothing
unfolding may_load
nothing-Sound = record {
  few_ids = omega arith;
  few_ballots = omega arith;
  no_proposal = λ id above. refl;
  no_ballot = λ id a above. refl;
  tallied = λ id p e. cc;
}

pub gov-instantiate :
    (h : Host) (env : Env) (info : MessageInfo) (msg : InstantiateMsg) (s : Store)
    → gov (instantiate h env info msg s).1 ≡ gov s
unfolding instantiate save_initial
gov-instantiate h env info msg s = ground arith

pub instantiate-Sound :
    (h : Host) (env : Env) (info : MessageInfo) (msg : InstantiateMsg) (s : Store)
    → gov s ≡ nothing
    → Sound 0 (gov (instantiate h env info msg s).1)
instantiate-Sound h env info msg s empty =
    subst (λ g. Sound 0 g) (sym (gov-instantiate h env info msg s ∙ empty)) nothing-Sound

module _ (h : Host) (law : IsLawful h) where
  -- What every step of sound proposals and ballots keeps holds after any calls.
  pub run_steps :
      (P : Gov → Type 0)
      → ((n : ℕ) (g g' : Gov) → Sound n g → n + 1 < u64_mod → Step h g g' → P g → P g')
      → (calls : List Call) (s : Store) (n : ℕ) → Sound n (gov s)
      → n + length calls < u64_mod
      → P (gov s)
      → P (gov (run h calls s))
  unfolding run
  run_steps P keep [] s n v fits p = p
  run_steps P keep (c ∷ calls) s n v fits p =
      let step = deliver-Step h c s in
      run_steps P keep calls (deliver h c s) (n + 1)
        (Step-Sound n (gov s) v (omega arith) h law _ step) (omega arith)
        (keep n (gov s) _ v (omega arith) step p)

  pub run-Sound :
      (calls : List Call) (s : Store) (n : ℕ)
      → Sound n (gov s)
      → n + length calls < u64_mod
      → Sound (n + length calls) (gov (run h calls s))
  unfolding run
  run-Sound [] s n v fits = subst (λ m. Sound m (gov s)) (omega arith) v
  run-Sound (c ∷ calls) s n v fits =
      let v' = Step-Sound n (gov s) v (omega arith) h law _ (deliver-Step h c s) in
      subst (λ m. Sound m (gov (run h calls (deliver h c s)))) (omega arith)
        (run-Sound calls (deliver h c s) (n + 1) v' (omega arith))

  pub run-Later :
      (calls : List Call) (s : Store) (n : ℕ)
      → Sound n (gov s)
      → n + length calls < u64_mod
      → Later (gov s) (gov (run h calls s))
  run-Later calls s n v fits =
      run_steps (λ g. Later (gov s) g)
        (λ m g g' sound room step so_far.
          Later-trans (gov s) g g' so_far (Step-Later h law m g sound room g' step))
        calls s n v fits (Later-refl (gov s))
