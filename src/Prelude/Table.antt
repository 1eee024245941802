-- ===== src/Prelude/Table.antt =====
-- A table of the database: its rows, and the statements that name a row by its primary key.
-- At most one row has a given key, so a statement that names the key stops at the first.
use Prim.Native.Nat.{ℕ}
use mathlib.Core.Path.{◌≡◌}
use mathlib.Core.Bool.{Bool, true, ◌&&◌}
use mathlib.Core.Option.{Option, none, some}
use mathlib.Core.List.{List, [], ◌∷◌, ◌++◌}
use native.Mathlib.Omega.{arith}
use mathlib.Core.Logic.{inl, inr}
use customer_portal.Prelude.Lists.{Member}
use customer_portal.Prelude.Tests.{Bool-cases, leb, ◌==◌, if◌then◌else◌}

module _ {R : Type 0} (key : R → ℕ) where
  -- SELECT … WHERE id = k
  abbrev pub find : ℕ → List R → Option R
  find k [] = none
  find k (r ∷ rs) = if key r == k then some r else find k rs

  -- The rows after UPDATE … SET f WHERE id = k
  abbrev pub modify : ℕ → (R → R) → List R → List R
  modify k f [] = []
  modify k f (r ∷ rs) = if key r == k then f r ∷ rs else r ∷ modify k f rs

  pub find-modify :
      (j k : ℕ) (f : R → R) (rs : List R)
      → ((r : R) → key (f r) ≡ key r)
      → find j (modify k f rs)
        ≡ (if j == k then elim (find k rs) [ none ↦ none | some r ↦ some (f r) ] else find j rs)
  find-modify j k f [] h = ground arith
  find-modify j k f (r ∷ rs) h = ground (arith, h r, find-modify j k f rs h)

-- SELECT … WHERE p: the first row, as for a unique column.
abbrev pub find_row {ℓ} : {R : Type ℓ} → (R → Bool) → List R → Option R
find_row p [] = none
find_row p (r ∷ rs) = if p r then some r else find_row p rs

-- The rows after UPDATE … SET f WHERE p
abbrev pub update_rows {ℓ} : {R : Type ℓ} → (R → Bool) → (R → R) → List R → List R
update_rows p f [] = []
update_rows p f (r ∷ rs) = (if p r then f r else r) ∷ update_rows p f rs

-- There is a row, and it satisfies `P`.
abbrev pub OnRow {ℓ} : {R : Type ℓ} → (R → Type 0) → Option R → Type 0
OnRow P none = ⊥
OnRow P (some r) = P r

pub OnRow-map {ℓ} :
    {R : Type ℓ} (P Q : R → Type 0) (o : Option R) → ((r : R) → P r → Q r) → OnRow P o → OnRow Q o
OnRow-map P Q none f h = h
OnRow-map P Q (some r) f h = f r h

-- An UPDATE that keeps the column the SELECT names.
pub find_row-update_rows {ℓ} :
    {R : Type ℓ} (p q : R → Bool) (f : R → R) (rs : List R)
    → ((r : R) → p (f r) ≡ p r)
    → find_row p (update_rows q f rs)
      ≡ elim (find_row p rs) [ none ↦ none | some r ↦ some (if q r then f r else r) ]
find_row-update_rows p q f [] h = ground arith
find_row-update_rows p q f (r ∷ rs) h = ground (arith, h r, find_row-update_rows p q f rs h)

pub find_row-true {ℓ} :
    {R : Type ℓ} (p : R → Bool) (rs : List R) (r : R) → find_row p rs ≡ some r → p r ≡ true
find_row-true p [] r h = ground arith
find_row-true p (x ∷ rs) r h = ground (arith, find_row-true p rs r)

-- The row that a stronger condition finds too.
pub find_row_and {ℓ} :
    {R : Type ℓ} (p q : R → Bool) (rs : List R) (r : R)
    → find_row p rs ≡ some r
    → q r ≡ true
    → find_row (λ r. p r && q r) rs ≡ some r
find_row_and p q [] r h g = ground arith
find_row_and p q (x ∷ rs) r h g = ground (arith, find_row_and p q rs r)

-- An INSERT of the first row that the SELECT finds.
pub find_row_append {ℓ} :
    {R : Type ℓ} (p : R → Bool) (rs : List R) (x : R)
    → find_row p rs ≡ none
    → p x ≡ true
    → find_row p (rs ++ x ∷ []) ≡ some x
find_row_append p [] x h g = ground arith
find_row_append p (r ∷ rs) x h g = ground (arith, find_row_append p rs x)

pub find_row-Member :
    {R : Type 0} (p : R → Bool) (rs : List R) (r : R) → find_row p rs ≡ some r → Member r rs
find_row-Member p [] r h = ground arith
find_row-Member p (x ∷ rs) r h = elim (Bool-cases (p x)) [
  | inl e ↦ ground (arith, e)
  | inr e ↦ let m = find_row-Member p rs r (rw e at h) in inr m
]

-- ORDER BY … DESC LIMIT 1: of the rows with the greatest number, the first.
abbrev pub latest_row {ℓ} : {R : Type ℓ} → (R → ℕ) → List R → Option R
latest_row at_ [] = none
latest_row at_ (r ∷ rs) = elim (latest_row at_ rs) [
  | none ↦ some r
  | some x ↦ some (if leb (at_ x) (at_ r) then r else x)
]
