-- ===== src/Roles/Steps.antt =====
-- The steps of replace_user_roles: its checks, the guard of the last administrator, and its writes.
use customer_portal.Support.Models.{validation_failed}
use customer_portal.Session.{after, ◌>>◌, pure}
use customer_portal.Users.Cache.{set_perm_epoch}
use customer_portal.Roles.Rows.{
  is_subset, named_in, is_distinct, scopes_of_roles, names_of, others_than, active_holders,
  in_texts, grant_names, role_ids_of, grants,
}
use customer_portal.Roles.Repository.{
  set_tables, get_by_names, admin_entry, create_admin_audit_log_entry,
  count_active_admins_excluding, assign_roles, list_role_names_for_user, replace_for_user,
}
use customer_portal.Roles.{
  load_requested, Replacement, is_empty, deny_escalation, raise_if_no_other_admin, raise_if_sole,
  admin_role_name, replace_loaded, write_roles, keep_an_admin, expire_permissions,
}
use customer_portal.Administration.Models.{AdminAuditLog, Role}
use customer_portal.Valkey.{Valkey, perm_epoch_key, instant}
use customer_portal.Users.World.{Moment, World, Result, ok, err, Settings, ◌>>=◌}
use customer_portal.Users.Models.{
  validation_failed, Db, UsersError, privilege_escalation, server_error, last_admin,
  self_role_change,
}
use customer_portal.Prelude.{
  List, ◌≢◌, ◌++◌, ◌≡◌, keep, false, some, ◌∷◌, ◌⊎◌, sorted_set, [], arith, true, ℕ, refl, length,
  String, Bool, ◌&&◌, not, inl, inr, ◌||◌,
}

-- The roles with the requested names.
abbrev pub requested_roles : Replacement → Db → List Role
requested_roles r d = keep (named_in r.requested_role_names) d.administration.roles

-- The request names another user and roles that there are, each once, and none that carries a scope
-- which the caller does not have.
abbrev pub MayReplace : Replacement → Db → Type 0
MayReplace r d =
    (r.target_id ≢ r.actor_id)
    × (is_empty r.requested_role_names ≡ false)
    × (is_distinct r.requested_role_names ≡ true)
    × (is_subset r.requested_role_names (names_of (requested_roles r d)) ≡ true)
    × (is_subset (scopes_of_roles (requested_roles r d)) r.actor_scopes ≡ true)

abbrev pub denial : Replacement → List Role → AdminAuditLog
denial r roles = record (admin_entry "authz_denied" r.actor_id (some r.target_id) r.request_id) {
  new_roles = some (sorted_set (names_of roles));
  severity = some "high";
}

abbrev pub add_entry : AdminAuditLog → Db → Db
add_entry e = set_tables λ t. record t { admin_audit = t.admin_audit ++ e ∷ [] }

-- Why a request is refused without a trace.
abbrev pub IsUnaskable : Replacement → Db → UsersError → Type 0
IsUnaskable r d e =
    ((e ≡ self_role_change) × (r.target_id ≡ r.actor_id))
    ⊎ ((e ≡ validation_failed "invalid_roles")
        × (is_empty r.requested_role_names || not (is_distinct r.requested_role_names) ≡ true))
    ⊎ ((e ≡ validation_failed "unknown_role")
        × (is_subset r.requested_role_names (names_of (requested_roles r d)) ≡ false))

module _ (vk : Valkey) (s : Settings) where
  -- Only an escalation leaves a trace.
  abbrev pub Refused : Replacement → World vk.Store → UsersError → World vk.Store → Type 0
  Refused r w e w' =
      (w'.store ≡ w.store)
      × ((IsUnaskable r w.db e × (w'.committed ≡ w.committed))
          ⊎ ((e ≡ privilege_escalation)
              × (is_subset (scopes_of_roles (requested_roles r w.db)) r.actor_scopes ≡ false)
              × (w'.committed ≡ add_entry (denial r (requested_roles r w.db)) w.db)))

  abbrev pub Loads : Replacement → World vk.Store → Result (List Role) × World vk.Store → Type 0
  Loads r w (ok roles, w') = (w' ≡ w) × (roles ≡ requested_roles r w.db) × MayReplace r w.db
  Loads r w (err e, w') = Refused r w e w'

  pub load_requested-Loads :
      (r : Replacement) (w : World vk.Store) → Loads r w (load_requested vk s r w)
  unfolding load_requested get_by_names deny_escalation create_admin_audit_log_entry ◌>>=◌
  load_requested-Loads r w = ground arith

-- Another active user holds the first of the roles, if there is one.
abbrev pub Spares : ℕ → Db → List Role → Type 0
Spares user d [] = Unit
Spares user d (r ∷ rs) =
    length (others_than user (active_holders r.id d.users d.administration.user_roles)) ≢ 0

-- No other active user holds the first of the roles, which is there.
abbrev pub IsSole : ℕ → Db → List Role → Type 0
IsSole user d [] = ⊥
IsSole user d (r ∷ rs) =
    length (others_than user (active_holders r.id d.users d.administration.user_roles)) ≡ 0

-- The rows of the role admin.
abbrev pub admin_roles : Db → List Role
admin_roles d = keep (named_in (admin_role_name ∷ [])) d.administration.roles

abbrev pub Guards :
    {Store : Type 0} → ℕ → List Role → World Store → Result (Unit {0}) × World Store → Type 0
Guards user roles w (ok x, w') = (w' ≡ w) × Spares user w.db roles
Guards user roles w (err e, w') = (w' ≡ w) × (e ≡ last_admin) × IsSole user w.db roles

raise_if_sole-Guards :
    {Store : Type 0} (user : ℕ) (roles : List Role) (w : World Store)
    → Guards user roles w (raise_if_sole user roles w)
unfolding raise_if_sole count_active_admins_excluding ◌>>=◌
raise_if_sole-Guards user [] w = (refl, tt)
raise_if_sole-Guards user (r ∷ rs) w = ground arith

pub raise_if_no_other_admin-Guards :
    {Store : Type 0} (user : ℕ) (w : World Store)
    → Guards user (admin_roles w.db) w (raise_if_no_other_admin user w)
unfolding raise_if_no_other_admin get_by_names ◌>>=◌
raise_if_no_other_admin-Guards user w = raise_if_sole-Guards user (admin_roles w.db) w

abbrev pub old_names : Replacement → Db → List String
old_names r d = grant_names (grants d.administration.roles r.target_id d.administration.user_roles)

abbrev pub loses_admin : Replacement → List Role → Db → Bool
loses_admin r roles d =
    in_texts admin_role_name (old_names r d) && not (in_texts admin_role_name (names_of roles))

-- The new role set and its entry.
abbrev pub with_roles : Moment → Replacement → List Role → List String → Db → Db
with_roles m r roles old = set_tables λ t. record t {
  user_roles = assign_roles m.db_now r.target_id (role_ids_of roles) t.user_roles;
  admin_audit =
      t.admin_audit
      ++ record (admin_entry "roles_replaced" r.actor_id (some r.target_id) r.request_id) {
        old_roles = some old;
        new_roles = some (sorted_set (names_of roles));
      }
        ∷ [];
}

module _ (vk : Valkey) (s : Settings) (m : Moment) where
  abbrev pub Writes :
      Replacement → List Role → World vk.Store → Result (List String) × World vk.Store → Type 0
  Writes r roles w (ok names, w') =
      (loses_admin r roles w.db ≡ true
        → Spares r.target_id (m.others w.db) (admin_roles (m.others w.db)))
      × (names ≡ sorted_set (names_of roles))
      × (w'.committed ≡ with_roles m r roles (old_names r w.db) (m.others w.db))
      × (w'.store
          ≡ vk.set_ex (perm_epoch_key r.target_id) (instant m.utc_now) s.perm_epoch_ttl_seconds
              w.store)
  Writes r roles w (err e, w') =
      (w'.store ≡ w.store)
      × (w'.committed ≡ m.others w.committed)
      × (((e ≡ last_admin)
            × (loses_admin r roles w.db ≡ true)
            × IsSole r.target_id (m.others w.db) (admin_roles (m.others w.db)))
          ⊎ (e ≡ server_error))

  abbrev Wrote :
      Replacement
      → List Role
      → List String
      → World vk.Store
      → Result (Unit {0}) × World vk.Store
      → Type 0
  Wrote r roles old w (ok x, w') =
      (w'.committed ≡ with_roles m r roles old w.db) × (w'.store ≡ w.store)
  Wrote r roles old w (err e, w') =
      (w'.store ≡ w.store) × (w'.committed ≡ w.committed) × (e ≡ server_error)

  replace_for_user-Replaces :
      (user : ℕ) (ids : List ℕ) (w : World vk.Store)
      → (replace_for_user m.db_now user ids w ≡ (err server_error, w))
        ⊎ (replace_for_user m.db_now user ids w ≡ (
          ok tt,
          record w {
            db =
                set_tables
                  (λ t. record t { user_roles = assign_roles m.db_now user ids t.user_roles })
                  w.db;
          },
        ))
  unfolding replace_for_user
  replace_for_user-Replaces user [] w = inr refl
  replace_for_user-Replaces user (id ∷ ids) w = ground arith

  write_roles-Wrote :
      (r : Replacement) (roles : List Role) (old : List String) (w : World vk.Store)
      → Wrote r roles old w (write_roles vk s m r roles old w)
  unfolding write_roles create_admin_audit_log_entry ◌>>=◌
  write_roles-Wrote r roles old w =
      elim (replace_for_user-Replaces r.target_id (role_ids_of roles) w) [
        | inl e ↦ rw e (refl, refl, refl)
        | inr e ↦ rw e (refl, refl)
      ]

  abbrev Expires :
      Replacement
      → List Role
      → List String
      → World vk.Store
      → Result (List String) × World vk.Store
      → Type 0
  Expires r roles old w (ok names, w') =
      (names ≡ sorted_set (names_of roles))
      × (w'.committed ≡ with_roles m r roles old w.db)
      × (w'.store
          ≡ vk.set_ex (perm_epoch_key r.target_id) (instant m.utc_now) s.perm_epoch_ttl_seconds
              w.store)
  Expires r roles old w (err e, w') =
      (w'.store ≡ w.store) × (w'.committed ≡ w.committed) × (e ≡ server_error)

  after_write :
      (r : Replacement) (roles : List Role) (old : List String) (w w' : World vk.Store)
      (x : Result (Unit {0}))
      → Wrote r roles old w (x, w')
      → Expires r roles old w (
          after x
            (λ _.
              set_perm_epoch vk m.utc_now r.target_id s.perm_epoch_ttl_seconds
              >> pure (sorted_set (names_of roles)))
            w')
  unfolding set_perm_epoch ◌>>=◌
  after_write r roles old w w' (ok x) (c, st) = (refl, c, rw st refl)
  after_write r roles old w w' (err e) h = h

  expire_permissions-Expires :
      (r : Replacement) (roles : List Role) (old : List String) (w : World vk.Store)
      → Expires r roles old w (expire_permissions vk s m r roles old w)
  unfolding expire_permissions ◌>>=◌
  expire_permissions-Expires r roles old w =
      after_write r roles old w _ _ (write_roles-Wrote r roles old w)

  pub replace_loaded-Writes :
      (r : Replacement) (roles : List Role) (w : World vk.Store)
      → Writes r roles w (replace_loaded vk s m r roles w)
  unfolding replace_loaded list_role_names_for_user keep_an_admin ◌>>=◌
  replace_loaded-Writes r roles w =
      let w2 : World vk.Store = record w { db = m.others w.db; committed = m.others w.committed } in
      ground (
        arith,
        raise_if_no_other_admin-Guards r.target_id w2,
        expire_permissions-Expires r roles (old_names r w.db) w2,
      )
