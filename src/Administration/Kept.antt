-- ===== src/Administration/Kept.antt =====
-- How the writes of role replacement and deactivation keep an active administrator.
use customer_portal.AdminUsers.Payloads.{Texts, Caller}
use customer_portal.Prelude.{
  ℕ, String, true, false, not, ◌≡◌, refl, sym, subst, ap, ◌∙◌, inl, inr, some, List, [], ◌∷◌, ◌==◌,
  ==_eq, arith, find_row, update_rows, keep, Member, Member-append, Member-keep, Bool-cases,
}
use customer_portal.Administration.Models.{Role, UserRole}
use customer_portal.Administration.Admins.{GivesRole, IsAdminRole, HasAdmin, Spares-other}
use customer_portal.Users.Models.{Db, User}
use customer_portal.Users.World.{Moment}
use customer_portal.Account.{deactivate_set}
use customer_portal.Roles.Repository.{
  in_texts, named_in, names_of, role_ids_of, is_active_user, new_grants,
}
use customer_portal.Roles.{admin_role_name, Replacement}
use customer_portal.Roles.Scopes.{RoleKeys, Member-grant_names, in_texts-Member}
use customer_portal.Roles.Steps.{
  Spares, admin_roles, loses_admin, old_names, with_roles, requested_roles,
}
use customer_portal.AdminUsers.Repository.{role_names}
use customer_portal.AdminUsers.Deactivation.{is_active_row, NotLast, with_deactivation}

-- The user has the name of a role that a row gives.
role_name-Member :
    (d : Db) (r : Role) (g : UserRole) (user : ℕ)
    → RoleKeys d.administration.roles
    → IsAdminRole d r
    → Member g d.administration.user_roles
    → g.role_id ≡ r.id
    → g.user_id ≡ user
    → in_texts admin_role_name (role_names d user) ≡ true
role_name-Member d r g user keys (there, name) row role owner =
    let t = d.administration in
    let join : find_row (λ (y : Role). y.id == g.role_id) t.roles ≡ some r =
      subst (λ k. find_row (λ (y : Role). y.id == k) t.roles ≡ some r) (sym role)
        (keys.0 r there) in
    (in_texts-Member admin_role_name (role_names d user)).1 (
      Member-grant_names t.roles user t.user_roles admin_role_name g row (owner, r, join, sym name))

-- A row of another user stays.
kept_row :
    (m : Moment) (q : Replacement) (roles : List Role) (old : List String) (d : Db) (r : Role)
    (g : UserRole)
    → IsAdminRole d r
    → GivesRole d r g
    → (g.user_id == q.target_id) ≡ false
    → HasAdmin (with_roles m q roles old d)
kept_row m q roles old d r g admin (row, role, active) other =
    let rows = d.administration.user_roles in
    let away = λ (y : UserRole). not (y.user_id == q.target_id) in
    let kept : Member g (keep away rows) =
      (Member-keep away g rows).1 (row, ground (arith, other)) in
    (
      r,
      g,
      admin,
      (
        (Member-append g (keep away rows) (new_grants m.db_now q.target_id (role_ids_of roles))).1
            (inl kept),
        role,
        active,
      ),
    )

names_of-Member :
    (name : String) (roles : List Role)
    → Member name (names_of roles)
    → (r : Role) × Member r roles × (r.name ≡ name)
names_of-Member name [] h = absurd h
names_of-Member name (r ∷ rs) (inl e) = (r, inl refl, sym e)
names_of-Member name (r ∷ rs) (inr m) = let (x, n, e) = names_of-Member name rs m in (x, inr n, e)

abbrev granted : ℕ → ℕ → ℕ → UserRole
granted now user role = record { user_id = user; role_id = role; granted_at = now }

new_grants-Member :
    (now user : ℕ) (roles : List Role) (r : Role)
    → Member r roles
    → Member (granted now user r.id) (new_grants now user (role_ids_of roles))
new_grants-Member now user [] r h = absurd h
new_grants-Member now user (x ∷ roles) r (inl e) = inl (ap (λ (y : Role). granted now user y.id) e)
new_grants-Member now user (x ∷ roles) r (inr m) = inr (new_grants-Member now user roles r m)

-- The target keeps the role.
granted_row :
    (m : Moment) (q : Replacement) (old : List String) (d : Db) (r : Role) (g : UserRole)
    → RoleKeys d.administration.roles
    → IsAdminRole d r
    → GivesRole d r g
    → g.user_id ≡ q.target_id
    → in_texts admin_role_name (names_of (requested_roles q d)) ≡ true
    → HasAdmin (with_roles m q (requested_roles q d) old d)
granted_row m q old d r g keys (there, name) (row, role, active) target asked =
    let roles = requested_roles q d in
    let (x, listed, same) =
      names_of-Member admin_role_name roles
        ((in_texts-Member admin_role_name (names_of roles)).0 asked) in
    let one : x ≡ r =
      keys.1 x r
        ((Member-keep (named_in q.requested_role_names) x d.administration.roles).0 listed).0 there
        (same ∙ sym name) in
    let mine =
      new_grants-Member m.db_now q.target_id roles r
        (subst (λ (y : Role). Member y roles) one listed) in
    (
      r,
      granted m.db_now q.target_id r.id,
      (there, name),
      (
        (Member-append (granted m.db_now q.target_id r.id)
              (keep (λ (y : UserRole). not (y.user_id == q.target_id)) d.administration.user_roles)
              (new_grants m.db_now q.target_id (role_ids_of roles))).1
            (inr mine),
        refl,
        subst (λ k. is_active_user k d.users ≡ true) target active,
      ),
    )

-- A replacement of roles keeps an active administrator, where its guard holds.
pub with_roles-HasAdmin :
    (m : Moment) (q : Replacement) (d : Db)
    → RoleKeys d.administration.roles
    → (loses_admin q (requested_roles q d) d ≡ true → Spares q.target_id d (admin_roles d))
    → HasAdmin d
    → HasAdmin (with_roles m q (requested_roles q d) (old_names q d) d)
with_roles-HasAdmin m q d keys guarded (r, g, admin, gives) =
    let roles = requested_roles q d in
    elim (Bool-cases (g.user_id == q.target_id)) [
      | inr e ↦ kept_row m q roles (old_names q d) d r g admin gives e
      | inl e ↦ elim (Bool-cases (in_texts admin_role_name (names_of roles))) [
        | inl asked ↦
            granted_row m q (old_names q d) d r g keys admin gives (==_eq g.user_id q.target_id e)
              asked
        | inr dropped ↦
            let held =
              role_name-Member d r g q.target_id keys admin gives.0 gives.1
                (==_eq g.user_id q.target_id e) in
            let (x, other, away) =
              Spares-other q.target_id d r keys admin (guarded (ground (arith, held, dropped))) in
            kept_row m q roles (old_names q d) d r x admin other away
      ]
    ]

-- A deactivation leaves the status of the others.
is_active_user-update_rows :
    (m : Moment) (target k : ℕ) (users : List User)
    → (k == target) ≡ false
    → is_active_user k (update_rows (is_active_row target) (deactivate_set m.db_now) users)
      ≡ is_active_user k users
is_active_user-update_rows m target k [] e = refl
is_active_user-update_rows m target k (u ∷ users) e =
    ground (arith, is_active_user-update_rows m target k users e)

-- A deactivation keeps an active administrator, where its guard holds.
pub with_deactivation-HasAdmin :
    (x : Texts) (m : Moment) (by : Caller) (target : ℕ) (reason : String) (d : Db)
    → RoleKeys d.administration.roles
    → NotLast target d
    → HasAdmin d
    → HasAdmin (with_deactivation x m by target reason d)
with_deactivation-HasAdmin x m by target reason d keys guarded (r, g, admin, (row, role, active)) =
    elim (Bool-cases (g.user_id == target)) [
      | inr e ↦ (
        r,
        g,
        admin,
        (row, role, is_active_user-update_rows m target g.user_id d.users e ∙ active),
      )
      | inl e ↦
          let held = role_name-Member d r g target keys admin row role (==_eq g.user_id target e) in
          let (y, (other, same, on), away) = Spares-other target d r keys admin (guarded held) in
          (
            r,
            y,
            admin,
            (other, same, is_active_user-update_rows m target y.user_id d.users away ∙ on),
          )
    ]
