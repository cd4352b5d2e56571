-- ===== src/Tests/Tranche.antt =====
-- The checks of a tranche at concrete inputs.
use gringotts.Base.{◌+◌, ◌<◌, ◌≡◌, ◌↔◌, ◌^◌, refl, [], ◌∷◌, sum, arith}
use gringotts.Word.{add64, add128}
use gringotts.Error.{ok}
use gringotts.Msg.{Tranche}
use gringotts.Tranche.{validate}
use gringotts.Tranche.Spec.{IsValid, deposited}
use gringotts.Tranche.Validate.{validate-IsValid}
use gringotts.Tranche.Overflow.{validate_wraps}
use gringotts.Tests.Fixtures.{host, host-IsLawful, env_at, usei, setup}

validate-setup : validate host setup.tranche (env_at 1000000000) (usei 30 ∷ []) ≡ ok tt
unfolding validate add128 add64
validate-setup = refl

validate-IsValid_example :
    (validate host setup.tranche (env_at 1000000000) (usei 30 ∷ []) ≡ ok tt)
    ↔ IsValid setup.tranche 1000000000 (usei 30 ∷ [])
unfolding deposited
validate-IsValid_example =
    validate-IsValid host host-IsLawful (env_at 1000000000) (omega arith) setup.tranche
      (usei 30 ∷ []) (omega arith) (omega arith)

-- Two amounts that sum to 2^128 + 4, against a deposit of 5.
abbrev huge : Tranche
huge = record {
  denom = "usei";
  vesting_timestamps = 2000000000 ∷ 3000000000 ∷ [];
  vesting_amounts = (2 ^ 127) ∷ (2 ^ 127 + 4) ∷ [];
  unlocked_token_distribution_address = "unlock1";
  staking_reward_distribution_address = "reward1";
}

validate_wraps_example :
    (validate host huge (env_at 1000000000) (usei 5 ∷ []) ≡ ok tt)
    × (deposited "usei" (usei 5 ∷ []) < sum huge.vesting_amounts)
unfolding deposited
validate_wraps_example =
    validate_wraps host host-IsLawful (env_at 1000000000) huge (usei 5 ∷ []) (omega arith) refl
      (omega arith) (omega arith) (omega arith) (omega arith) (omega arith)
