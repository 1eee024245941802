-- ===== src/AdminUsers/Order.antt =====
-- The order of the list of users (app/modules/admin_users/repository.py), ORDER BY created_at DESC, id
-- DESC, and the keyset condition of its cursor.
use customer_portal.Prelude.{
  ℕ, Bool, true, false, ◌&&◌, ◌||◌, ◌≡◌, refl, ◌∙◌, inl, inr, List, [], ◌∷◌, ◌++◌, ◌==◌, ltb, arith,
  All, keep, Bool-cases, if◌then◌else◌,
}
use customer_portal.Users.Models.{User}

-- The row comes after the one with these values.
abbrev pub is_below : ℕ → ℕ → User → Bool
is_below created id u = ltb u.created_at created || (u.created_at == created && ltb u.id id)

abbrev pub before : User → User → Bool
before a b = is_below a.created_at a.id b

unfoldable pub insert_user : User → List User → List User
insert_user u [] = u ∷ []
insert_user u (v ∷ us) = let rest = insert_user u us in if before u v then u ∷ v ∷ us else v ∷ rest

unfoldable pub newest_first : List User → List User
unfolding insert_user
newest_first [] = []
newest_first (u ∷ us) = insert_user u (newest_first us)

abbrev pub Strict : List User → Type 0
Strict [] = Unit
Strict (u ∷ us) = All (λ v. before u v ≡ true) us × Strict us

-- The primary key.
abbrev pub UniqueIds : List User → Type 0
UniqueIds [] = Unit
UniqueIds (u ∷ us) = All (λ (v : User). (u.id == v.id) ≡ false) us × UniqueIds us

All-keep : (P : User → Type 0) (p : User → Bool) (us : List User) → All P us → All P (keep p us)
All-keep P p [] h = tt
All-keep P p (u ∷ us) (h, hs) = ground (arith, All-keep P p us hs, h)

All-insert_user :
    (P : User → Type 0) (u : User) (us : List User) → P u → All P us → All P (insert_user u us)
unfolding insert_user
All-insert_user P u [] h hs = (h, tt)
All-insert_user P u (v ∷ us) h (g, gs) = ground (arith, All-insert_user P u us h gs, h, g, gs)

All-newest_first : (P : User → Type 0) (us : List User) → All P us → All P (newest_first us)
unfolding newest_first
All-newest_first P [] h = tt
All-newest_first P (u ∷ us) (h, hs) =
    All-insert_user P u (newest_first us) h (All-newest_first P us hs)

All-map : (P Q : User → Type 0) (us : List User) → ((u : User) → P u → Q u) → All P us → All Q us
All-map P Q [] f h = tt
All-map P Q (u ∷ us) f (h, hs) = (f u h, All-map P Q us f hs)

before_trans : (a b c : User) → before a b ≡ true → before b c ≡ true → before a c ≡ true
before_trans a b c h g = ground arith

before_total : (a b : User) → (a.id == b.id) ≡ false → before a b ≡ false → before b a ≡ true
before_total a b h g = ground arith

insert_user-Strict :
    (u : User) (us : List User)
    → All (λ (v : User). (u.id == v.id) ≡ false) us
    → Strict us
    → Strict (insert_user u us)
unfolding insert_user
insert_user-Strict u [] h g = (tt, tt)
insert_user-Strict u (v ∷ us) (h, hs) (g, gs) = elim (Bool-cases (before u v)) [
  | inl e ↦ rw e (
    (
      e,
      All-map (λ x. before v x ≡ true) (λ x. before u x ≡ true) us (λ x k. before_trans u v x e k)
          g,
    ),
    (g, gs),
  )
  | inr e ↦ rw e (
    All-insert_user (λ x. before v x ≡ true) u us (before_total u v h e) g,
    insert_user-Strict u us hs gs,
  )
]

pub newest_first-Strict : (us : List User) → UniqueIds us → Strict (newest_first us)
unfolding newest_first
newest_first-Strict [] h = tt
newest_first-Strict (u ∷ us) (h, hs) =
    insert_user-Strict u (newest_first us)
      (All-newest_first (λ (v : User). (u.id == v.id) ≡ false) us h) (newest_first-Strict us hs)

insert_user-first :
    (u : User) (us : List User) → All (λ v. before u v ≡ true) us → insert_user u us ≡ u ∷ us
unfolding insert_user
insert_user-first u [] h = refl
insert_user-first u (v ∷ us) (h, hs) = ground (arith, h)

keep-insert_user :
    (p : User → Bool) (u : User) (us : List User)
    → Strict us
    → keep p (insert_user u us) ≡ (if p u then insert_user u (keep p us) else keep p us)
unfolding insert_user
keep-insert_user p u [] h = refl
keep-insert_user p u (v ∷ us) (h, hs) = elim (Bool-cases (before u v)) [
  | inl e ↦
      let all_ =
        All-map (λ x. before v x ≡ true) (λ x. before u x ≡ true) us (λ x k. before_trans u v x e k)
          h in
      ground
        (arith, e, insert_user-first u (keep p us) (All-keep (λ x. before u x ≡ true) p us all_))
  | inr e ↦ ground (arith, e, keep-insert_user p u us hs)
]

-- Filtering before or after sorting is the same.
pub keep-newest_first :
    (p : User → Bool) (us : List User)
    → UniqueIds us
    → keep p (newest_first us) ≡ newest_first (keep p us)
unfolding newest_first
keep-newest_first p [] h = refl
keep-newest_first p (u ∷ us) (h, hs) =
    keep-insert_user p u (newest_first us) (newest_first-Strict us hs)
    ∙ ground (arith, keep-newest_first p us hs)

pub UniqueIds-keep : (p : User → Bool) (us : List User) → UniqueIds us → UniqueIds (keep p us)
UniqueIds-keep p [] h = tt
UniqueIds-keep p (u ∷ us) (h, hs) =
    ground (arith, All-keep (λ (v : User). (u.id == v.id) ≡ false) p us h, UniqueIds-keep p us hs)

keep-All : (p : User → Bool) (us : List User) → All (λ v. p v ≡ true) us → keep p us ≡ us
keep-All p [] h = refl
keep-All p (u ∷ us) (h, hs) = ground (arith, h, keep-All p us hs)

before_irrefl : (u : User) → before u u ≡ false
before_irrefl u = ground arith

before_asym : (a b : User) → before a b ≡ true → before b a ≡ false
before_asym a b h = ground arith

-- What comes after a row of a list in this order.
pub keep-is_below :
    (us : List User) (u : User) (vs : List User)
    → Strict (us ++ u ∷ vs)
    → keep (before u) (us ++ u ∷ vs) ≡ vs
keep-is_below [] u vs (h, hs) = ground (arith, before_irrefl u, keep-All (before u) vs h)
keep-is_below (x ∷ us) u vs (h, hs) =
    ground (arith, before_asym x u (first us h), keep-is_below us u vs hs)
  where
    first : (ys : List User) → All (λ v. before x v ≡ true) (ys ++ u ∷ vs) → before x u ≡ true
    first [] (k, ks) = k
    first (y ∷ ys) (k, ks) = first ys ks
