-- ===== src/Prelude/TextOrder.antt =====
-- The order of texts, by which Python's `sorted` goes.
use Prim.Native.Nat.{ℕ, Ordering, compare as compare_ℕ}
use Prim.Native.Char.{code}
use Prim.Native.String.compare
use Prim.Native.String.{String, [], ◌∷◌, compare, then}
use mathlib.Core.Bool.{Bool, false, ◌||◌}
use customer_portal.Prelude.Tests.{◌==◌}
use mathlib.Core.Path.{◌≡◌, sym, ◌∙◌}
use native.Mathlib.Omega.{arith}

flipped : Ordering → Ordering
flipped Ordering.lt = Ordering.gt
flipped Ordering.eq = Ordering.eq
flipped Ordering.gt = Ordering.lt

compare_ℕ-flipped : (m n : ℕ) → compare_ℕ n m ≡ flipped (compare_ℕ m n)
unfolding flipped
compare_ℕ-flipped m n = ground arith

then_gt :
    (m n : ℕ) (o p : Ordering)
    → (o ≡ Ordering.gt → p ≡ Ordering.lt)
    → then (compare_ℕ m n) o ≡ Ordering.gt
    → then (compare_ℕ n m) p ≡ Ordering.lt
unfolding flipped
then_gt m n o p ih h = ground arith

then_lt :
    (k m n : ℕ) (o p q : Ordering)
    → (o ≡ Ordering.lt → p ≡ Ordering.lt → q ≡ Ordering.lt)
    → then (compare_ℕ k m) o ≡ Ordering.lt
    → then (compare_ℕ m n) p ≡ Ordering.lt
    → then (compare_ℕ k n) q ≡ Ordering.lt
then_lt k m n o p q ih h g = ground arith

pub compare_gt : (s t : String) → compare s t ≡ Ordering.gt → compare t s ≡ Ordering.lt
compare_gt [] [] h = ground (arith, compare.nil-nil)
compare_gt [] (d ∷ t) h = ground (arith, compare.nil-cons d t)
compare_gt (c ∷ s) [] h = compare.nil-cons c s
compare_gt (c ∷ s) (d ∷ t) h =
    compare.cons-cons d c t s
    ∙ then_gt (code c) (code d) (compare s t) (compare t s) (compare_gt s t)
        (sym (compare.cons-cons c d s t) ∙ h)

pub compare_trans :
    (s t u : String)
    → compare s t ≡ Ordering.lt
    → compare t u ≡ Ordering.lt
    → compare s u ≡ Ordering.lt
compare_trans [] [] u h g = g
compare_trans [] (d ∷ t) [] h g = ground (arith, compare.cons-nil d t)
compare_trans [] (d ∷ t) (e ∷ u) h g = compare.nil-cons e u
compare_trans (c ∷ s) [] u h g = ground (arith, compare.cons-nil c s)
compare_trans (c ∷ s) (d ∷ t) [] h g = ground (arith, compare.cons-nil d t)
compare_trans (c ∷ s) (d ∷ t) (e ∷ u) h g =
    compare.cons-cons c e s u
    ∙ then_lt (code c) (code d) (code e) (compare s t) (compare t u) (compare s u)
        (compare_trans s t u) (sym (compare.cons-cons c d s t) ∙ h)
        (sym (compare.cons-cons d e t u) ∙ g)

pub compare_irrefl : (s : String) → ¬ (compare s s ≡ Ordering.lt)
compare_irrefl [] h = ground (arith, compare.nil-nil)
compare_irrefl (c ∷ s) h = ground (arith, compare.cons-cons c c s s, compare_irrefl s)

-- `any(p(c) for c in text)`, of the characters' numbers.
abbrev pub any_code : (ℕ → Bool) → String → Bool
any_code p [] = false
any_code p (c ∷ s) = let rest = any_code p s in p (code c) || rest

-- The character with this number occurs in the text.
abbrev pub has_code : ℕ → String → Bool
has_code n = any_code λ k. k == n
