-- ===== src/Exec/Keeps.antt =====
-- Predicates on the state that a call keeps, whether it returns or fails.
use gringotts.Error.{Result, ok, err, panic}
use gringotts.Exec.{Exec, pure, lift, reads, ◌>>=◌}

pub record Keeps {S A : Type 0} (P : S → Type 0) (call : Exec S A) : Type 0 where
  pub at : (store : S) → P store → P (call store).1

module _ {S A : Type 0} {P : S → Type 0} where
  pub Keeps-reads : (f : S → Result A) → Keeps P (reads f)
  Keeps-reads f = record { at = λ store holds. holds }

  pub Keeps-lift : (outcome : Result A) → Keeps P (lift outcome)
  Keeps-lift outcome = record { at = λ store holds. holds }

  pub Keeps-pure : (value : A) → Keeps P (pure value)
  Keeps-pure value = record { at = λ store holds. holds }

module _ {S A B : Type 0} {P : S → Type 0} (next : A → Exec S B)
    (rest : (value : A) → Keeps P (next value)) where
  resume_keeps : (outcome : Result A) (store : S) → P store → P ((lift outcome >>= next) store).1
  resume_keeps panic store holds = holds
  resume_keeps (err _) store holds = holds
  resume_keeps (ok value) store holds = (rest value).at store holds

module _ {S A B : Type 0} {P : S → Type 0} (call : Exec S A) (next : A → Exec S B) where
  pub Keeps-bind : Keeps P call → ((value : A) → Keeps P (next value)) → Keeps P (call >>= next)
  Keeps-bind first rest = record {
    at = λ store holds. resume_keeps next rest (call store).0 (call store).1 (first.at store holds);
  }
