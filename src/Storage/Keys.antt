-- ===== src/Storage/Keys.antt =====
-- The keys of the maps: addresses, proposal ids, and pairs of them, with the order of their bytes.
use Prim.Native.Nat.{Ordering}
use Prim.Native.String.{compare}
use gringotts.Base.{
  ℕ, ◌≡◌, ◌↔◌, Bool, true, false, ◌&&◌, ◌||◌, String, ltb, arith, ◌==◌, str_eq, str_eq_iff,
}

pub record Key (K : Type 0) : Type 0 where
  pub beq : K → K → Bool
  pub blt : K → K → Bool
  pub beq_iff : (a b : K) → (beq a b ≡ true) ↔ (a ≡ b)

pub nat_beq_iff : (a b : ℕ) → ((a == b) ≡ true) ↔ (a ≡ b)
nat_beq_iff a b = ground arith

instance abbrev pub nat_key : Key ℕ
nat_key = record { beq = ◌==◌; blt = ltb; beq_iff = nat_beq_iff }

-- Rust orders texts by their bytes, and so does `compare`.
abbrev pub str_lt : String → String → Bool
str_lt s t = elim (compare s t) [ Ordering.lt ↦ true | _ ↦ false ]

instance abbrev pub string_key : Key String
string_key = record { beq = str_eq; blt = str_lt; beq_iff = str_eq_iff }

-- A key (proposal id, voter): by the id, and by the voter under one id.
abbrev pub ballot_beq : ℕ × String → ℕ × String → Bool
ballot_beq (i, a) (j, b) = i == j && str_eq a b

abbrev pub ballot_blt : ℕ × String → ℕ × String → Bool
ballot_blt (i, a) (j, b) = ltb i j || (i == j && str_lt a b)

pub ballot_beq_iff : (p q : ℕ × String) → (ballot_beq p q ≡ true) ↔ (p ≡ q)
ballot_beq_iff (i, a) (j, b) = ground (arith, str_eq_iff a b)

instance abbrev pub ballot_key : Key (ℕ × String)
ballot_key = record { beq = ballot_beq; blt = ballot_blt; beq_iff = ballot_beq_iff }
