-- ===== src/Roles/Escalation.antt =====
-- What a replacement of roles may give.
use customer_portal.Prelude.{
  ℕ, String, true, not, ◌≡◌, refl, sym, subst, ap, ◌∙◌, inl, inr, some, List, [], ◌∷◌, ◌==◌, arith,
  keep, find_row, Member, Member-append, Member-keep,
}
use customer_portal.Valkey.{Valkey}
use customer_portal.Administration.Models.{Role, UserRole}
use customer_portal.Users.Models.{Db}
use customer_portal.Users.World.{World, ok, Settings, Moment}
use customer_portal.Roles.Repository.{
  is_subset, named_in, role_ids_of, scopes_of_roles, new_grants, assign_roles,
}
use customer_portal.Roles.{Replacement, replace_user_roles}
use customer_portal.Roles.Scopes.{HasScope, RoleKeys, in_texts-Member, Member-scopes_of_roles}
use customer_portal.Roles.Steps.{requested_roles}
use customer_portal.Roles.Outcome.{replace_user_roles-Replaces}

is_subset-Member :
    (xs ys : List String) (a : String) → is_subset xs ys ≡ true → Member a xs → Member a ys
is_subset-Member [] ys a h m = absurd m
is_subset-Member (x ∷ xs) ys a h (inl e) =
    subst (λ z. Member z ys) (sym e) ((in_texts-Member x ys).0 (ground (arith, h)))
is_subset-Member (x ∷ xs) ys a h (inr m) = is_subset-Member xs ys a (ground (arith, h)) m

new_grants-role :
    (now user : ℕ) (roles : List Role) (g : UserRole)
    → Member g (new_grants now user (role_ids_of roles))
    → (r : Role) × Member r roles × (r.id ≡ g.role_id)
new_grants-role now user [] g h = absurd h
new_grants-role now user (r ∷ roles) g (inl e) =
    (r, inl refl, sym (ap (λ (y : UserRole). y.role_id) e))
new_grants-role now user (r ∷ roles) g (inr m) =
    let (x, n, e) = new_grants-role now user roles g m in (x, inr n, e)

-- A row of the target is a new one.
assigned_row :
    (now user : ℕ) (roles : List Role) (rows : List UserRole) (g : UserRole)
    → Member g (assign_roles now user (role_ids_of roles) rows)
    → g.user_id ≡ user
    → (r : Role) × Member r roles × (r.id ≡ g.role_id)
assigned_row now user roles rows g m e =
    let kept = λ (y : UserRole). not (y.user_id == user) in
    elim ((Member-append g (keep kept rows) (new_grants now user (role_ids_of roles))).0 m) [
      | inl old ↦ let away = ((Member-keep kept g rows).0 old).1 in absurd (ground (arith, away, e))
      | inr new ↦ new_grants-role now user roles g new
    ]

some_injective : (a b : Role) → some a ≡ some b → a ≡ b
some_injective a b h = cc

module _ (vk : Valkey) (s : Settings) where
  -- After a replacement of roles the target has no scope but those that the caller has. The table roles
  -- has its keys and does not change meanwhile.
  pub replace_user_roles-HasScope :
      (m : Moment) (q : Replacement) (w w' : World vk.Store) (names : List String) (scope : String)
      → replace_user_roles vk s m q w ≡ (ok names, w')
      → RoleKeys w.committed.administration.roles
      → (m.others w.committed).administration.roles ≡ w.committed.administration.roles
      → HasScope w'.committed.administration q.target_id scope
      → Member scope q.actor_scopes
  replace_user_roles-HasScope m q w w' names scope done keys same has =
      let roles = requested_roles q w.committed in
      let ((other, given, distinct, known, allowed), (guarded, n, written, expired)) =
        rw done at (replace_user_roles-Replaces vk s m q w) in
      let (g, r, row, there, owner, id, carried) =
        subst (λ (d : Db). HasScope d.administration q.target_id scope) written has in
      let (x, listed, by_id) =
        assigned_row m.db_now q.target_id roles (m.others w.committed).administration.user_roles g
          row owner in
      let table = w.committed.administration.roles in
      let first = keys.0 r (subst (Member r) same there) in
      let second = keys.0 x ((Member-keep (named_in q.requested_role_names) x table).0 listed).0 in
      let one : r ≡ x = some_injective r x (
        sym first ∙ ap (λ k. find_row (λ (y : Role). y.id == k) table) (id ∙ sym by_id) ∙ second) in
      is_subset-Member (scopes_of_roles roles) q.actor_scopes scope allowed (
        Member-scopes_of_roles scope x roles listed
          (subst (λ (y : Role). Member scope y.permissions) one carried))
