-- ===== src/Word.antt =====
-- The machine integers of the contract, u64 and u128. Cargo.toml turns no overflow check on for a
-- release build, so `+`, `-` and `sum` wrap.
use gringotts.Base.{ℕ, ◌+◌, ◌-◌, ◌%◌, ◌^◌, ◌≤◌, ◌<◌, ◌≡◌, List, [], ◌∷◌, sum, arith}

abbrev pub u64_mod : ℕ
u64_mod = 2 ^ 64

abbrev pub u128_mod : ℕ
u128_mod = 2 ^ 128

unfoldable pub add64 : ℕ → ℕ → ℕ
add64 a b = (a + b) % u64_mod

unfoldable pub add128 : ℕ → ℕ → ℕ
add128 a b = (a + b) % u128_mod

unfoldable pub sub128 : ℕ → ℕ → ℕ
sub128 a b = (a + u128_mod - b) % u128_mod

-- `iter().sum::<u128>()`, from the left.
unfoldable pub sum128_from : ℕ → List ℕ → ℕ
sum128_from acc [] = acc
sum128_from acc (x ∷ xs) = sum128_from (add128 acc x) xs

unfoldable pub sum128 : List ℕ → ℕ
unfolding sum128_from
sum128 = sum128_from 0

pub add64_lem : (a b : ℕ) → a + b < u64_mod → add64 a b ≡ a + b
unfolding add64
add64_lem a b h = omega arith

pub add128_lem : (a b : ℕ) → a + b < u128_mod → add128 a b ≡ a + b
unfolding add128
add128_lem a b h = omega arith

pub sub128_lem : (a b : ℕ) → b ≤ a → a < u128_mod → sub128 a b ≡ a - b
unfolding sub128
sub128_lem a b h k = omega arith

-- A sum that wraps is repaired by the subtraction that brings it back into range.
pub sub128-add128 :
    (a b c : ℕ)
    → a < u128_mod
    → b < u128_mod
    → c < u128_mod
    → c ≤ a + b
    → a + b < c + u128_mod
    → sub128 (add128 a b) c ≡ a + b - c
unfolding sub128 add128
sub128-add128 a b c ha hb hc h k = omega arith

sum128_from_lem :
    (acc : ℕ) (xs : List ℕ) → acc + sum xs < u128_mod → sum128_from acc xs ≡ acc + sum xs
unfolding sum128_from
sum128_from_lem acc [] h = omega arith
sum128_from_lem acc (x ∷ xs) h =
    rw (add128_lem acc x (omega arith)) (omega (arith, sum128_from_lem (acc + x) xs (omega arith)))

pub sum128_lem : (xs : List ℕ) → sum xs < u128_mod → sum128 xs ≡ sum xs
unfolding sum128
sum128_lem xs h = omega (arith, sum128_from_lem 0 xs)
