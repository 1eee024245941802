-- ===== src/Prelude/Lists.antt =====
-- Lists measured and cut by native numbers, under the library's names, and predicates over them.
use Prim.Native.Nat.{ℕ, zero, suc}
use mathlib.Core.Path.{◌≡◌, ap}
use mathlib.Core.Logic.{◌⊎◌, inl, inr, ◌↔◌}
use mathlib.Core.Bool.{Bool, true, false, ◌||◌}
use native.Mathlib.Omega.{arith}
use mathlib.Core.List.{List, [], ◌∷◌, ◌++◌}
use customer_portal.Prelude.Tests.{Bool-cases, ◌==◌, if◌then◌else◌}

module _ {ℓ} {A : Type ℓ} where
  abbrev pub length : List A → ℕ
  length [] = 0
  length (x ∷ xs) = suc (length xs)

  abbrev pub take : ℕ → List A → List A
  take zero xs = []
  take (suc n) [] = []
  take (suc n) (x ∷ xs) = x ∷ take n xs

  -- Every element satisfies `P`.
  abbrev pub All {κ} : (A → Type κ) → List A → Type κ
  All P [] = Unit
  All P (x ∷ xs) = P x × All P xs

  -- `filter` with a Boolean test, as a comprehension or a WHERE clause has it.
  abbrev pub keep : (A → Bool) → List A → List A
  keep p [] = []
  keep p (x ∷ xs) = if p x then x ∷ keep p xs else keep p xs

-- `x in xs`, for identifiers.
abbrev pub contains : ℕ → List ℕ → Bool
contains a [] = false
contains a (x ∷ xs) = a == x || contains a xs

-- `x` is an element.
abbrev pub Member : {A : Type 0} → A → List A → Type 0
Member x [] = ⊥
Member x (y ∷ ys) = (x ≡ y) ⊎ Member x ys

pub Member-append :
    {A : Type 0} (x : A) (xs ys : List A) → Member x (xs ++ ys) ↔ (Member x xs ⊎ Member x ys)
Member-append x [] ys = ground arith
Member-append x (z ∷ xs) ys = ground (arith, Member-append x xs ys)

pub Member-keep :
    {A : Type 0} (p : A → Bool) (x : A) (xs : List A)
    → Member x (keep p xs) ↔ (Member x xs × (p x ≡ true))
Member-keep p x [] = ground arith
Member-keep p x (y ∷ xs) = elim (Bool-cases (p y)) [
  | inl e ↦ ground (arith, e, Member-keep p x xs, λ (q : x ≡ y). ap p q)
  | inr e ↦ ground (arith, e, Member-keep p x xs, λ (q : x ≡ y). ap p q)
]
