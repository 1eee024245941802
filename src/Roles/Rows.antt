-- ===== src/Roles/Rows.antt =====
-- The WHERE clauses and joins of app/modules/roles/repository.py.
use text.Mathlib.Text.{◌==◌ as str_eq}
use customer_portal.Prelude.{
  ℕ, String, Bool, true, false, not, ◌&&◌, ◌||◌, none, some, List, [], ◌∷◌, ◌++◌, ◌==◌, find_row,
  contains, if◌then◌else◌,
}
use customer_portal.Administration.Models.{Role, UserRole}
use customer_portal.Users.Models.{User, UserStatus, active}

-- `x in xs`, for texts.
abbrev pub in_texts : String → List String → Bool
in_texts x [] = false
in_texts x (y ∷ ys) = str_eq x y || in_texts x ys

-- `set(xs).issubset(ys)`
abbrev pub is_subset : List String → List String → Bool
is_subset [] ys = true
is_subset (x ∷ xs) ys = in_texts x ys && is_subset xs ys

-- `len(xs) == len(set(xs))`
abbrev pub is_distinct : List String → Bool
is_distinct [] = true
is_distinct (x ∷ xs) = not (in_texts x xs) && is_distinct xs

-- WHERE name IN names
abbrev pub named_in : List String → Role → Bool
named_in names r = in_texts r.name names

abbrev pub names_of : List Role → List String
names_of [] = []
names_of (r ∷ rs) = r.name ∷ names_of rs

abbrev pub role_ids_of : List Role → List ℕ
role_ids_of [] = []
role_ids_of (r ∷ rs) = r.id ∷ role_ids_of rs

-- `{permission.scope for role in roles for permission in role.permissions}`, before it is a set.
abbrev pub scopes_of_roles : List Role → List String
scopes_of_roles [] = []
scopes_of_roles (r ∷ rs) = r.permissions ++ scopes_of_roles rs

-- JOIN roles ON roles.id = user_roles.role_id WHERE user_roles.user_id = user, with the moment of the
-- grant; a foreign key keeps each role_id that of one role.
unfoldable pub grants : List Role → ℕ → List UserRole → List (String × ℕ)
grants roles user [] = []
grants roles user (g ∷ gs) =
    let rest = grants roles user gs in
    if g.user_id == user
    then elim (find_row (λ (r : Role). r.id == g.role_id) roles) [
      | none ↦ rest
      | some r ↦ (r.name, g.granted_at) ∷ rest
    ]
    else rest

abbrev pub grant_names : List (String × ℕ) → List String
grant_names [] = []
grant_names ((name, at_) ∷ gs) = name ∷ grant_names gs

abbrev pub is_active : UserStatus → Bool
is_active active = true
is_active _ = false

abbrev pub is_active_user : ℕ → List User → Bool
is_active_user id users = elim (find_row (λ (u : User). u.id == id) users) [
  | none ↦ false
  | some u ↦ is_active u.status
]

-- JOIN users ON users.id = user_roles.user_id WHERE user_roles.role_id = role AND users.status = 'active'
unfoldable pub active_holders : ℕ → List User → List UserRole → List ℕ
active_holders role users [] = []
active_holders role users (g ∷ gs) =
    let rest = active_holders role users gs in
    if g.role_id == role && is_active_user g.user_id users then g.user_id ∷ rest else rest

-- `set(ids)` after `discard(id)`
unfoldable pub others_than : ℕ → List ℕ → List ℕ
others_than id [] = []
others_than id (a ∷ ids) =
    let rest = others_than id ids in if a == id || contains a rest then rest else a ∷ rest

-- The rows that `replace_for_user` adds.
abbrev pub new_grants : ℕ → ℕ → List ℕ → List UserRole
new_grants now user [] = []
new_grants now user (id ∷ ids) =
    record { user_id = user; role_id = id; granted_at = now } ∷ new_grants now user ids
