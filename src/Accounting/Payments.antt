-- ===== src/Accounting/Payments.antt =====
-- What the messages of a response pay.
use gringotts.Base.{
  ℕ, ◌+◌, ◌≡◌, Bool, true, String, str_eq, if◌then◌else◌, List, [], ◌∷◌, ◌++◌, arith,
}
use gringotts.Cosmos.{Addr, Coin, CosmosMsg, bank, send}

-- The coins of a denomination.
abbrev coins_in : String → List Coin → ℕ
coins_in denom [] = 0
coins_in denom (c ∷ rest) = (if str_eq c.denom denom then c.amount else 0) + coins_in denom rest

-- What messages send of a denomination to the addresses of a set.
abbrev pub sent_where : (Addr → Bool) → String → List CosmosMsg → ℕ
sent_where P denom [] = 0
sent_where P denom (bank (send dst cs) ∷ rest) =
    (if P dst then coins_in denom cs else 0) + sent_where P denom rest
sent_where P denom (_ ∷ rest) = sent_where P denom rest

-- To one address.
abbrev pub sent : Addr → String → List CosmosMsg → ℕ
sent to = sent_where (λ a. str_eq a to)

-- To anyone.
abbrev pub paid : String → List CosmosMsg → ℕ
paid = sent_where (λ a. true)

pub sent-append :
    (P : Addr → Bool) (denom : String) (xs ys : List CosmosMsg)
    → sent_where P denom (xs ++ ys) ≡ sent_where P denom xs + sent_where P denom ys
sent-append P denom [] ys = omega arith
sent-append P denom (CosmosMsg.bank (send dst cs) ∷ xs) ys =
    omega (arith, sent-append P denom xs ys)
sent-append P denom (CosmosMsg.staking _ ∷ xs) ys = sent-append P denom xs ys
sent-append P denom (CosmosMsg.distribution _ ∷ xs) ys = sent-append P denom xs ys
sent-append P denom (CosmosMsg.wasm _ ∷ xs) ys = sent-append P denom xs ys
sent-append P denom (CosmosMsg.gov _ ∷ xs) ys = sent-append P denom xs ys
