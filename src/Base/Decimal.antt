-- ===== src/Base/Decimal.antt =====
-- `to_string` of a u64: its decimal digits.
use Prim.Native.Nat.{ℕ, zero, suc, ◌/◌, ◌%◌}
use Prim.Native.String.{String, ◌++◌ as append}
use gringotts.Base.Tests.{ltb, ◌==◌, if◌then◌else◌}

unfoldable pub digit : ℕ → String
digit d =
    if d == 0
    then "0"
    else if d == 1
    then "1"
    else if d == 2
    then "2"
    else if d == 3
    then "3"
    else if d == 4
    then "4"
    else if d == 5
    then "5"
    else if d == 6
    then "6"
    else if d == 7
    then "7"
    else if d == 8
    then "8"
    else "9"

-- The digits of `n` before those already made, on fuel.
unfoldable pub decimal_from : ℕ → ℕ → String → String
unfolding digit
decimal_from zero n made = made
decimal_from (suc fuel) n made =
    let rest = decimal_from fuel (n / 10) (append (digit (n % 10)) made) in
    if ltb n 10 then append (digit n) made else rest

-- A u64 has at most 20 digits.
unfoldable pub to_string : ℕ → String
unfolding decimal_from
to_string n = decimal_from 20 n ""
