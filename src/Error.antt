-- ===== src/Error.antt =====
-- error.rs: the errors of the contract, and the result of a fallible call. `panic` is a Rust panic,
-- which aborts the call: `unwrap` on an error, or an index out of bounds.
use gringotts.Base.{◌≡◌, refl, ◌⊎◌, inl, inr, String, Bool, true, false, ⊤, Option, none, some}

-- The errors of cosmwasm_std that the contract meets: a missing item, a message of its own, and any
-- other error of the host (a query that fails, a value that does not encode).
pub data StdError : Type 0 where
  not_found : StdError
  generic_err : String → StdError
  host : String → StdError

-- The one error of cw_utils that the contract makes.
pub data ThresholdError : Type 0 where
  invalid_threshold : ThresholdError

pub data ContractError : Type 0 where
  std : StdError → ContractError
  threshold : ThresholdError → ContractError
  zero_weight : ContractError
  unreachable_weight : ContractError
  no_voters : ContractError
  unauthorized : ContractError
  not_open : ContractError
  expired : ContractError
  not_expired : ContractError
  wrong_expiration : ContractError
  already_voted : ContractError
  wrong_execute_status : ContractError
  wrong_close_status : ContractError
  no_admins : ContractError
  no_ops : ContractError
  invalid_tranche : String → ContractError
  no_sufficient_delegation_reward : ContractError
  sem_ver : String → ContractError
  no_sufficient_unlocked_tokens : ContractError

-- A `StdResult` is a result whose errors are `std`: the `?` that turns one into a `ContractError` is
-- the identity.
pub data Result (A : Type 0) : Type 0 where
  ok : A → Result A
  err : ContractError → Result A
  panic : Result A

infixl 5 ◌>>=◌ ◌>>◌
abbrev pub ◌>>=◌ : {A B : Type 0} → Result A → (A → Result B) → Result B
panic >>= next = panic
err refusal >>= next = err refusal
ok value >>= next = next value

abbrev pub ◌>>◌ : {A B : Type 0} → Result A → Result B → Result B
first >> second = first >>= λ _. second

-- `if !test { return Err(e); }`
abbrev pub guard : Bool → ContractError → Result ⊤
guard false refusal = err refusal
guard true refusal = ok tt

-- `load` of an item that may be missing.
abbrev pub or_not_found : {A : Type 0} → Option A → Result A
or_not_found none = err (std not_found)
or_not_found (some a) = ok a

-- A call has ended well exactly when it returned a value.
abbrev pub IsOk : {A : Type 0} → Result A → Type 0
IsOk (ok _) = Unit
IsOk (err _) = ⊥
IsOk panic = ⊥

pub Result-cases :
    {A : Type 0} (r : Result A)
    → ((a : A) × (r ≡ ok a)) ⊎ ((e : ContractError) × (r ≡ err e)) ⊎ (r ≡ panic)
Result-cases (ok a) = inl (a, refl)
Result-cases (err e) = inr (inl (e, refl))
Result-cases panic = inr (inr refl)
