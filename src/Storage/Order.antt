-- ===== src/Storage/Order.antt =====
-- The order of the keys is a strict total order: numbers, texts by their bytes, and pairs of them.
use Prim.Native.Char.{code}
use Prim.Native.Nat.{Ordering, compare as compare_nat}
use Prim.Native.String.{[] as nil, ◌∷◌ as ◌▸◌, compare, then}
use Prim.Native.String.compare as compare_laws
use native.Mathlib.Omega.{compare-lt, compare-eq, compare-gt}
use text.Mathlib.TextEquality.{path_by_compare}
use text.Mathlib.TextPositions.{compare_refl, compare_self}
use gringotts.Base.{
  ℕ, ◌<◌, ◌≡◌, ◌∙◌, ◌⊎◌, refl, sym, ap, true, false, String, str_eq, str_eq_iff, arith, inl, inr,
}
use gringotts.Storage.Keys.{Key, nat_key, string_key, ballot_key, str_lt}

Ordering-cases : (o : Ordering) → (o ≡ Ordering.lt) ⊎ (o ≡ Ordering.eq) ⊎ (o ≡ Ordering.gt)
Ordering-cases Ordering.lt = inl refl
Ordering-cases Ordering.eq = inr (inl refl)
Ordering-cases Ordering.gt = inr (inr refl)

compare_of_lt : (a b : ℕ) → a < b → compare_nat a b ≡ Ordering.lt
compare_of_lt a b lt = elim (Ordering-cases (compare_nat a b)) [
  | inl e ↦ e
  | inr (inl e) ↦ absurd (omega (arith, compare-eq a b e))
  | inr (inr e) ↦ absurd (omega (arith, compare-gt a b e))
]

then_lt :
    (o p : Ordering)
    → then o p ≡ Ordering.lt
    → (o ≡ Ordering.lt) ⊎ ((o ≡ Ordering.eq) × (p ≡ Ordering.lt))
then_lt Ordering.lt p e = inl refl
then_lt Ordering.eq p e = inr (refl, e)
then_lt Ordering.gt p e = absurd (cc)

then_gt :
    (o p : Ordering)
    → then o p ≡ Ordering.gt
    → (o ≡ Ordering.gt) ⊎ ((o ≡ Ordering.eq) × (p ≡ Ordering.gt))
then_gt Ordering.lt p e = absurd (cc)
then_gt Ordering.eq p e = inr (refl, e)
then_gt Ordering.gt p e = inl refl

-- A text is before another by its first byte, or by the rest after equal first bytes.
abbrev Before : ℕ → ℕ → Ordering → Type 0
Before m n p = (m < n) ⊎ ((m ≡ n) × (p ≡ Ordering.lt))

then-Before : (m n : ℕ) (p : Ordering) → then (compare_nat m n) p ≡ Ordering.lt → Before m n p
then-Before m n p e = elim (then_lt (compare_nat m n) p e) [
  | inl lt ↦ inl (compare-lt m n lt)
  | inr (same, rest) ↦ inr (compare-eq m n same, rest)
]

Before-then : (m n : ℕ) (p : Ordering) → Before m n p → then (compare_nat m n) p ≡ Ordering.lt
Before-then m n p (inl lt) = ap (λ o. then o p) (compare_of_lt m n lt)
Before-then m n p (inr (same, rest)) =
    ap (λ k. then (compare_nat m k) p) (sym same) ∙ ap (λ o. then o p) (compare_self m) ∙ rest

Before-trans :
    (l m n : ℕ) (p q r : Ordering)
    → Before l m p
    → Before m n q
    → (p ≡ Ordering.lt → q ≡ Ordering.lt → r ≡ Ordering.lt)
    → Before l n r
Before-trans l m n p q r (inl a) (inl b) rest = inl (omega (arith, a, b))
Before-trans l m n p q r (inl a) (inr (b, _)) rest = inl (omega (arith, a, b))
Before-trans l m n p q r (inr (a, _)) (inl b) rest = inl (omega (arith, a, b))
Before-trans l m n p q r (inr (a, c)) (inr (b, d)) rest = inr (a ∙ b, rest c d)

text_transitive :
    (s t u : String)
    → compare s t ≡ Ordering.lt
    → compare t u ≡ Ordering.lt
    → compare s u ≡ Ordering.lt
text_transitive nil nil u h k = absurd (cc (h, compare_laws.nil-nil))
text_transitive nil (d ▸ t) nil h k = absurd (cc (k, compare_laws.cons-nil d t))
text_transitive nil (d ▸ t) (e ▸ u) h k = compare_laws.nil-cons e u
text_transitive (c ▸ s) nil u h k = absurd (cc (h, compare_laws.cons-nil c s))
text_transitive (c ▸ s) (d ▸ t) nil h k = absurd (cc (k, compare_laws.cons-nil d t))
text_transitive (c ▸ s) (d ▸ t) (e ▸ u) h k =
    compare_laws.cons-cons c e s u
    ∙ Before-then (code c) (code e) (compare s u) (
        Before-trans (code c) (code d) (code e) (compare s t) (compare t u) (compare s u)
          (then-Before _ _ _ (sym (compare_laws.cons-cons c d s t) ∙ h))
          (then-Before _ _ _ (sym (compare_laws.cons-cons d e t u) ∙ k)) (text_transitive s t u))

text_swapped : (s t : String) → compare s t ≡ Ordering.gt → compare t s ≡ Ordering.lt
text_swapped nil nil h = absurd (cc (h, compare_laws.nil-nil))
text_swapped nil (d ▸ t) h = absurd (cc (h, compare_laws.nil-cons d t))
text_swapped (c ▸ s) nil h = compare_laws.nil-cons c s
text_swapped (c ▸ s) (d ▸ t) h =
    compare_laws.cons-cons d c t s
    ∙ Before-then (code d) (code c) (compare t s)
        (elim (then_gt _ (compare s t) (sym (compare_laws.cons-cons c d s t) ∙ h)) [
          | inl a ↦ inl (compare-gt (code c) (code d) a)
          | inr (a, rest) ↦ inr (sym (compare-eq (code c) (code d) a), text_swapped s t rest)
        ])

-- The laws of a strict total order beside the equality of keys.
pub record IsOrdered {K : Type 0} (key : Key K) : Type 0 where
  pub irreflexive : (a : K) → key.blt a a ≡ false
  pub transitive : (a b c : K) → key.blt a b ≡ true → key.blt b c ≡ true → key.blt a c ≡ true
  pub total : (a b : K) → key.beq a b ≡ false → key.blt a b ≡ false → key.blt b a ≡ true

pub nat_key-IsOrdered : IsOrdered nat_key
nat_key-IsOrdered = record {
  irreflexive = λ a. ground arith;
  transitive = λ a b c h k. ground arith;
  total = λ a b h k. ground arith;
}

str_lt-compare : (s t : String) → str_lt s t ≡ true → compare s t ≡ Ordering.lt
str_lt-compare s t e = elim (Ordering-cases (compare s t)) [
  | inl lt ↦ lt
  | inr (inl same) ↦ absurd (cc (e, same))
  | inr (inr gt) ↦ absurd (cc (e, gt))
]

compare-str_lt : (s t : String) → compare s t ≡ Ordering.lt → str_lt s t ≡ true
compare-str_lt s t e = cc (e)

str_total : (s t : String) → str_eq s t ≡ false → str_lt s t ≡ false → str_lt t s ≡ true
str_total s t other ge = elim (Ordering-cases (compare s t)) [
  | inl lt ↦ absurd (cc (lt, ge))
  | inr (inl same) ↦ absurd (cc (other, (str_eq_iff s t).1 (path_by_compare s t same)))
  | inr (inr gt) ↦ compare-str_lt t s (text_swapped s t gt)
]

pub string_key-IsOrdered : IsOrdered string_key
string_key-IsOrdered = record {
  irreflexive = λ s. cc (compare_refl s);
  transitive = λ s t u h k.
      compare-str_lt s u (text_transitive s t u (str_lt-compare s t h) (str_lt-compare t u k));
  total = str_total;
}
