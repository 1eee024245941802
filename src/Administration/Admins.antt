-- ===== src/Administration/Admins.antt =====
-- An active user who holds the role admin, and what keeps one.
use customer_portal.Prelude.{
  ℕ, true, false, ◌&&◌, ◌||◌, ◌≡◌, ◌≢◌, refl, subst, ap, ◌∙◌, inl, inr, List, [], ◌∷◌, ◌==◌, arith,
  length, contains, Member, Member-keep, Bool-cases,
}
use text.Mathlib.TextEquality.{eq_iff}
use customer_portal.Administration.Models.{Role, UserRole}
use customer_portal.Users.Models.{Db, User}
use customer_portal.Roles.Repository.{named_in, is_active_user, active_holders, others_than}
use customer_portal.Roles.{admin_role_name}
use customer_portal.Roles.Scopes.{RoleKeys}
use customer_portal.Roles.Steps.{Spares, admin_roles}

-- The row gives an active user the role.
abbrev pub GivesRole : Db → Role → UserRole → Type 0
GivesRole d r g =
    Member g d.administration.user_roles
    × (g.role_id ≡ r.id)
    × (is_active_user g.user_id d.users ≡ true)

abbrev pub IsAdminRole : Db → Role → Type 0
IsAdminRole d r = Member r d.administration.roles × (r.name ≡ admin_role_name)

-- There is an active administrator.
abbrev pub HasAdmin : Db → Type 0
HasAdmin d = (r : Role) × (g : UserRole) × IsAdminRole d r × GivesRole d r g

other_holder :
    (user role : ℕ) (users : List User) (gs : List UserRole)
    → length (others_than user (active_holders role users gs)) ≢ 0
    → (g : UserRole) × Member g gs
      × (g.role_id ≡ role)
      × (is_active_user g.user_id users ≡ true)
      × ((g.user_id == user) ≡ false)
unfolding others_than active_holders
other_holder user role users [] h = absurd (h refl)
other_holder user role users (g ∷ gs) h =
    let later : length (others_than user (active_holders role users gs)) ≢ 0
        → (y : UserRole) × Member y (g ∷ gs)
          × (y.role_id ≡ role)
          × (is_active_user y.user_id users ≡ true)
          × ((y.user_id == user) ≡ false) =
      λ k. let (y, m, q, a, e) = other_holder user role users gs k in (y, inr m, q, a, e) in
    elim (Bool-cases (g.role_id == role && is_active_user g.user_id users)) [
      | inr e ↦ later (rw e at h)
      | inl e ↦
          elim (Bool-cases (
            g.user_id == user
            || contains g.user_id (others_than user (active_holders role users gs)))) [
              | inl f ↦ later (rw (e, f) at h)
              | inr f ↦ (g, inl refl, ground (arith, e), ground (arith, e), ground (arith, f))
            ]
    ]

-- Another active user holds the role admin where the guard lets a user lose it.
pub Spares-other :
    (user : ℕ) (d : Db) (r : Role)
    → RoleKeys d.administration.roles
    → IsAdminRole d r
    → Spares user d (admin_roles d)
    → (g : UserRole) × GivesRole d r g × ((g.user_id == user) ≡ false)
Spares-other user d r keys (there, name) spared = first (admin_roles d) refl spared (
    (Member-keep (named_in (admin_role_name ∷ [])) r d.administration.roles).1
      (there, ground (arith, eq_iff r.name admin_role_name)))
  where
    first :
        (rs : List Role)
        → rs ≡ admin_roles d
        → Spares user d rs
        → Member r rs
        → (g : UserRole) × GivesRole d r g × ((g.user_id == user) ≡ false)
    first [] e s m = absurd m
    first (x ∷ rs) e s m =
        let (listed, named) =
          (Member-keep (named_in (admin_role_name ∷ [])) x d.administration.roles).0
            (subst (λ (l : List Role). Member x l) e (inl refl)) in
        let same : x ≡ r =
          keys.1 x r listed there (ground (arith, named, eq_iff x.name admin_role_name, name)) in
        let (g, m, q, active, e) = other_holder user x.id d.users d.administration.user_roles s in
        (g, (m, q ∙ ap (λ (y : Role). y.id) same, active), e)
