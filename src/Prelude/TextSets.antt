-- ===== src/Prelude/TextSets.antt =====
-- The sorted list of a set of texts, as `sorted({…})` makes it.
use Prim.Native.Nat.{Ordering}
use Prim.Native.String.{String, compare}
use mathlib.Core.Path.{◌≡◌, refl, sym, subst}
use mathlib.Core.Logic.{◌↔◌, ◌⊎◌, inl, inr}
use mathlib.Core.List.{List, [], ◌∷◌}
use native.Mathlib.Omega.{arith}
use text.Mathlib.TextEquality.{path_by_compare}
use customer_portal.Prelude.Lists.{Member}
use customer_portal.Prelude.TextOrder.{compare_gt, compare_trans, compare_irrefl}

-- Every text of the list comes after `x`.
abbrev pub Above : String → List String → Type 0
Above x [] = Unit
Above x (y ∷ ys) = (compare x y ≡ Ordering.lt) × Above x ys

-- In ascending order, with no text twice.
abbrev pub Ascending : List String → Type 0
Ascending [] = Unit
Ascending (x ∷ xs) = Above x xs × Ascending xs

-- One step of `sorted(set)`.
unfoldable pub insert_text : String → List String → List String
insert_text x [] = x ∷ []
insert_text x (y ∷ ys) = elim (compare x y) [
  | Ordering.lt ↦ x ∷ y ∷ ys
  | Ordering.eq ↦ y ∷ ys
  | Ordering.gt ↦ y ∷ insert_text x ys
]

-- `sorted(set(xs))`
unfoldable pub sorted_set : List String → List String
unfolding insert_text
sorted_set [] = []
sorted_set (x ∷ xs) = insert_text x (sorted_set xs)

Above-insert_text :
    (a x : String) (ys : List String)
    → compare a x ≡ Ordering.lt
    → Above a ys
    → Above a (insert_text x ys)
unfolding insert_text
Above-insert_text a x [] h g = (h, tt)
Above-insert_text a x (y ∷ ys) h g = ground (arith, Above-insert_text a x ys h)

Above-trans :
    (a b : String) (ys : List String) → compare a b ≡ Ordering.lt → Above b ys → Above a ys
Above-trans a b [] h g = tt
Above-trans a b (y ∷ ys) h (g, gs) = (compare_trans a b y h g, Above-trans a b ys h gs)

insert_text-Ascending :
    (x : String) (ys : List String) → Ascending ys → Ascending (insert_text x ys)
unfolding insert_text
insert_text-Ascending x [] h = (tt, tt)
insert_text-Ascending x (y ∷ ys) (above, rest) = ground (
  arith,
  Above-trans x y ys,
  Above-insert_text y x ys,
  compare_gt x y,
  insert_text-Ascending x ys rest,
)

pub sorted_set-Ascending : (xs : List String) → Ascending (sorted_set xs)
unfolding sorted_set
sorted_set-Ascending [] = tt
sorted_set-Ascending (x ∷ xs) = insert_text-Ascending x (sorted_set xs) (sorted_set-Ascending xs)

Member-insert_text :
    (a x : String) (ys : List String) → Member a (insert_text x ys) ↔ ((a ≡ x) ⊎ Member a ys)
unfolding insert_text
Member-insert_text a x [] = (λ h. h, λ h. h)
Member-insert_text a x (y ∷ ys) = ground (arith, Member-insert_text a x ys, path_by_compare x y)

pub Member-sorted_set : (a : String) (xs : List String) → Member a (sorted_set xs) ↔ Member a xs
unfolding sorted_set
Member-sorted_set a [] = (λ h. h, λ h. h)
Member-sorted_set a (x ∷ xs) =
    ground (arith, Member-insert_text a x (sorted_set xs), Member-sorted_set a xs)

Above-Member :
    (a x : String) (ys : List String) → Above a ys → Member x ys → compare a x ≡ Ordering.lt
Above-Member a x [] h m = elim m [ ]
Above-Member a x (y ∷ ys) (h, hs) m = elim m [ inl e ↦ rw e h | inr r ↦ Above-Member a x ys hs r ]

Member-tail :
    (x : String) (xs ys : List String)
    → Above x xs
    → ((a : String) → Member a (x ∷ xs) → Member a (x ∷ ys))
    → (a : String) → Member a xs
    → Member a ys
Member-tail x xs ys above h a m = elim (h a (inr m)) [
  | inl e ↦ absurd (compare_irrefl x (rw e at (Above-Member x a xs above m)))
  | inr r ↦ r
]

heads_equal :
    (x y : String) (xs ys : List String)
    → Above x xs
    → Above y ys
    → Member x (y ∷ ys)
    → Member y (x ∷ xs)
    → x ≡ y
heads_equal x y xs ys h g m n = elim m [
  | inl e ↦ e
  | inr r ↦ elim n [
    | inl e ↦ sym e
    | inr q ↦
        absurd (
          compare_irrefl x
            (compare_trans x y x (Above-Member x y xs h q) (Above-Member y x ys g r)))
  ]
]

-- A set has one list in ascending order.
pub Ascending-unique :
    (xs ys : List String)
    → Ascending xs
    → Ascending ys
    → ((a : String) → Member a xs → Member a ys)
    → ((a : String) → Member a ys → Member a xs)
    → xs ≡ ys
Ascending-unique [] [] h g to back = refl
Ascending-unique [] (y ∷ ys) h g to back = absurd (back y (inl refl))
Ascending-unique (x ∷ xs) [] h g to back = absurd (to x (inl refl))
Ascending-unique (x ∷ xs) (y ∷ ys) (above, h) (above2, g) to back =
    let heads : x ≡ y = heads_equal x y xs ys above above2 (to x (inl refl)) (back y (inl refl)) in
    let above3 : Above x ys = subst (λ z. Above z ys) (sym heads) above2 in
    let to2 : (a : String) → Member a (x ∷ xs) → Member a (x ∷ ys) =
      subst (λ z. (a : String) → Member a (x ∷ xs) → Member a (z ∷ ys)) (sym heads) to in
    let back2 : (a : String) → Member a (x ∷ ys) → Member a (x ∷ xs) =
      subst (λ z. (a : String) → Member a (z ∷ ys) → Member a (x ∷ xs)) (sym heads) back in
    let tails : xs ≡ ys =
      Ascending-unique xs ys h g (Member-tail x xs ys above to2)
        (Member-tail x ys xs above3 back2) in
    λ i. heads i ∷ tails i

-- One step of `sorted`, which keeps equal texts.
unfoldable pub insert_sorted_text : String → List String → List String
insert_sorted_text x [] = x ∷ []
insert_sorted_text x (y ∷ ys) = elim (compare x y) [
  | Ordering.gt ↦ y ∷ insert_sorted_text x ys
  | _ ↦ x ∷ y ∷ ys
]

-- `sorted(xs)`
unfoldable pub sorted_texts : List String → List String
unfolding insert_sorted_text
sorted_texts [] = []
sorted_texts (x ∷ xs) = insert_sorted_text x (sorted_texts xs)
