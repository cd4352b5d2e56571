-- ===== src/Exec.antt =====
-- A call that may write its state and may fail. What was written before an error stays written: it is
-- the host that reverts a failed message, so the state comes back beside the error too.
pub mod Keeps
use gringotts.Base.{⊤, Bool, true, false}
use gringotts.Error.{ContractError, Result, ok, err, panic}

abbrev pub Exec : Type 0 → Type 0 → Type 0
Exec S A = S → Result A × S

module _ {S A : Type 0} where
  -- A call that is given the storage to read.
  abbrev pub reads : (S → Result A) → Exec S A
  reads f store = (f store, store)

  abbrev pub lift : Result A → Exec S A
  lift outcome store = (outcome, store)

  abbrev pub raise : ContractError → Exec S A
  raise refusal store = (err refusal, store)

  abbrev pub pure : A → Exec S A
  pure value store = (ok value, store)

module _ {S A B : Type 0} where
  abbrev resume : (A → Exec S B) → Result A × S → Result B × S
  resume next (panic, store) = (panic, store)
  resume next (err refusal, store) = (err refusal, store)
  resume next (ok value, store) = next value store

  infixl 5 ◌>>=◌ ◌>>◌
  abbrev pub ◌>>=◌ : Exec S A → (A → Exec S B) → Exec S B
  ◌>>=◌ call next store = resume next (call store)

  abbrev pub ◌>>◌ : Exec S A → Exec S B → Exec S B
  call >> after = call >>= λ _. after

module _ {S : Type 0} where
  -- A write that cannot fail.
  abbrev pub save : (S → S) → Exec S ⊤
  save f s = (ok tt, f s)

  abbrev pub check : Bool → ContractError → Exec S ⊤
  check true e s = (ok tt, s)
  check false e s = (err e, s)
