-- ===== src/Roles/Scopes.antt =====
-- What resolve_scopes_for_user answers, against the relation between users and scopes that the tables
-- hold.
use customer_portal.Roles.Rows.{named_in}
use mathlib.Core.Path.{subst}
use customer_portal.Prelude.{
  ℕ, String, true, ◌≡◌, ap, ◌⊎◌, inl, inr, ◌↔◌, some, List, [], ◌∷◌, ◌==◌, ==_eq, find_row,
  find_row-true, Bool-cases, Option-cases, Member, Member-append, Member-keep, Ascending,
  sorted_set, sorted_set-Ascending, Member-sorted_set, Ascending-unique, arith, refl, keep,
  find_row-Member, ◌∙◌,
}
use text.Mathlib.TextEquality.{eq_iff}
use customer_portal.Administration.Models.{Role, UserRole, Tables}
use customer_portal.Users.World.{World, ok, ◌>>=◌}
use customer_portal.Roles.Repository.{
  in_texts, scopes_of_roles, grant_names, grants, get_by_names, list_role_names_for_user,
}
use customer_portal.Roles.{resolve_scopes_for_user}

-- The user holds a role that carries the scope.
abbrev pub HasScope : Tables → ℕ → String → Type 0
HasScope t user scope =
    (g : UserRole) × (r : Role) × Member g t.user_roles
    × Member r t.roles
    × (g.user_id ≡ user)
    × (r.id ≡ g.role_id)
    × Member scope r.permissions

-- The primary key of the table roles, and its unique column.
abbrev pub RoleKeys : List Role → Type 0
RoleKeys roles =
    ((r : Role) → Member r roles → find_row (λ (x : Role). x.id == r.id) roles ≡ some r)
    × ((r x : Role) → Member r roles → Member x roles → r.name ≡ x.name → r ≡ x)

pub in_texts-Member : (x : String) (ys : List String) → (in_texts x ys ≡ true) ↔ Member x ys
in_texts-Member x [] = ground arith
in_texts-Member x (y ∷ ys) = ground (arith, eq_iff x y, in_texts-Member x ys)

scopes_of_roles-Member :
    (scope : String) (rs : List Role)
    → Member scope (scopes_of_roles rs)
    → (r : Role) × Member r rs × Member scope r.permissions
scopes_of_roles-Member scope [] h = absurd h
scopes_of_roles-Member scope (r ∷ rs) h =
    elim ((Member-append scope r.permissions (scopes_of_roles rs)).0 h) [
      | inl m ↦ (r, inl refl, m)
      | inr m ↦ let (x, n, k) = scopes_of_roles-Member scope rs m in (x, inr n, k)
    ]

pub Member-scopes_of_roles :
    (scope : String) (r : Role) (rs : List Role)
    → Member r rs
    → Member scope r.permissions
    → Member scope (scopes_of_roles rs)
Member-scopes_of_roles scope r [] h m = absurd h
Member-scopes_of_roles scope r (x ∷ rs) h m =
    (Member-append scope x.permissions (scopes_of_roles rs)).1 (elim h [
      | inl e ↦ inl (subst (λ (y : Role). Member scope y.permissions) e m)
      | inr n ↦ inr (Member-scopes_of_roles scope r rs n m)
    ])

-- A row of user_roles, and the role that it grants.
abbrev pub Granted : List Role → ℕ → UserRole → String → Type 0
Granted roles user g name =
    (g.user_id ≡ user)
    × (r : Role) × (find_row (λ (x : Role). x.id == g.role_id) roles ≡ some r)
    × (name ≡ r.name)

grant_names-Member :
    (roles : List Role) (user : ℕ) (gs : List UserRole) (name : String)
    → Member name (grant_names (grants roles user gs))
    → (g : UserRole) × Member g gs × Granted roles user g name
unfolding grants
grant_names-Member roles user [] name h = absurd h
grant_names-Member roles user (g ∷ gs) name h =
    let later : Member name (grant_names (grants roles user gs))
        → (x : UserRole) × Member x (g ∷ gs) × Granted roles user x name =
      λ m. let (x, n, k) = grant_names-Member roles user gs name m in (x, inr n, k) in
    elim (Bool-cases (g.user_id == user)) [
      | inr e ↦ later (rw e at h)
      | inl e ↦ elim (Option-cases (find_row (λ (x : Role). x.id == g.role_id) roles)) [
        | inl n ↦ later (rw (e, n) at h)
        | inr (r, n) ↦
            let m : (name ≡ r.name) ⊎ Member name (grant_names (grants roles user gs)) =
              rw (e, n) at h in
            elim m [
              | inl same ↦ (g, inl refl, (==_eq g.user_id user e, r, n, same))
              | inr k ↦ later k
            ]
      ]
    ]

pub Member-grant_names :
    (roles : List Role) (user : ℕ) (gs : List UserRole) (name : String) (g : UserRole)
    → Member g gs
    → Granted roles user g name
    → Member name (grant_names (grants roles user gs))
unfolding grants
Member-grant_names roles user [] name g m h = absurd m
Member-grant_names roles user (x ∷ gs) name g (inl e) (owner, r, found, same) = ground (
  arith,
  e,
  owner,
  found,
  same,
  ap (λ (y : UserRole). y.user_id) e,
  ap (λ (y : UserRole). find_row (λ (z : Role). z.id == y.role_id) roles) e,
)
Member-grant_names roles user (x ∷ gs) name g (inr m) h =
    let later = Member-grant_names roles user gs name g m h in ground (arith, later)

scopes_of : Tables → ℕ → List String
scopes_of t user =
    sorted_set
      (scopes_of_roles (keep (named_in (grant_names (grants t.roles user t.user_roles))) t.roles))

scopes_of-HasScope :
    (t : Tables) (user : ℕ) (scope : String)
    → RoleKeys t.roles
    → Member scope (scopes_of t user)
    → HasScope t user scope
unfolding scopes_of
scopes_of-HasScope t user scope keys m =
    let names = grant_names (grants t.roles user t.user_roles) in
    let matched = keep (named_in names) t.roles in
    let (r, found, carried) =
      scopes_of_roles-Member scope matched
        ((Member-sorted_set scope (scopes_of_roles matched)).0 m) in
    let (there, named) = (Member-keep (named_in names) r t.roles).0 found in
    let (g, row, (owner, x, join, same)) =
      grant_names-Member t.roles user t.user_roles r.name
        ((in_texts-Member r.name names).0 named) in
    let by_id = λ (y : Role). y.id == g.role_id in
    let one : r ≡ x = keys.1 r x there (find_row-Member by_id t.roles x join) same in
    (
      g,
      r,
      row,
      there,
      owner,
      ap (λ (y : Role). y.id) one ∙ ==_eq x.id g.role_id (find_row-true by_id t.roles x join),
      carried,
    )

HasScope-scopes_of :
    (t : Tables) (user : ℕ) (scope : String)
    → RoleKeys t.roles
    → HasScope t user scope
    → Member scope (scopes_of t user)
unfolding scopes_of
HasScope-scopes_of t user scope keys (g, r, row, there, owner, id, carried) =
    let names = grant_names (grants t.roles user t.user_roles) in
    let matched = keep (named_in names) t.roles in
    let join : find_row (λ (x : Role). x.id == g.role_id) t.roles ≡ some r =
      subst (λ k. find_row (λ (x : Role). x.id == k) t.roles ≡ some r) id (keys.0 r there) in
    let name : Member r.name names =
      Member-grant_names t.roles user t.user_roles r.name g row (owner, r, join, refl) in
    let found =
      (Member-keep (named_in names) r t.roles).1 (there, (in_texts-Member r.name names).1 name) in
    (Member-sorted_set scope (scopes_of_roles matched)).1
      (Member-scopes_of_roles scope r matched found carried)

-- What the tokens of a user carry: the scopes that the user has, in ascending order and each once; no
-- other list is so. The keys of the table roles hold.
pub resolve_scopes_for_user-Refines :
    {Store : Type 0} (w : World Store) (user : ℕ)
    → RoleKeys w.db.administration.roles
    → (scopes : List String) × (resolve_scopes_for_user user w ≡ (ok scopes, w))
      × Ascending scopes
      × ((scope : String) → Member scope scopes ↔ HasScope w.db.administration user scope)
      × ((other : List String)
          → Ascending other
          → ((scope : String) → Member scope other ↔ HasScope w.db.administration user scope)
          → other ≡ scopes)
unfolding scopes_of resolve_scopes_for_user list_role_names_for_user get_by_names ◌>>=◌
resolve_scopes_for_user-Refines w user keys =
    let t = w.db.administration in
    let ascending : Ascending (scopes_of t user) = unfold scopes_of in sorted_set-Ascending _ in
    (
      scopes_of t user,
      refl,
      ascending,
      λ scope. (scopes_of-HasScope t user scope keys, HasScope-scopes_of t user scope keys),
      λ other up same.
          Ascending-unique other (scopes_of t user) up ascending
            (λ a m. HasScope-scopes_of t user a keys ((same a).0 m))
            (λ a m. (same a).1 (scopes_of-HasScope t user a keys m)),
    )
