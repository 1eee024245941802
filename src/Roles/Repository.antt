-- ===== src/Roles/Repository.antt =====
-- `RoleRepository` and `UserRoleRepository` of app/modules/roles/repository.py.
use customer_portal.Prelude.{
  ℕ, String, not, Option, none, List, [], ◌∷◌, ◌++◌, is_some, ◌==◌, length, keep, find_row,
  if◌then◌else◌,
}
use customer_portal.Administration.Models.{Role, UserRole, AdminAuditLog, Tables}
use customer_portal.Users.Models.{User, Db, server_error}
use customer_portal.Users.World.{Action, modify_db, query, ok, err}
pub use customer_portal.Roles.Rows.{
  in_texts, is_subset, is_distinct, named_in, names_of, role_ids_of, scopes_of_roles, grant_names,
  is_active, is_active_user, new_grants,
}
unfoldable pub use customer_portal.Roles.Rows.{grants, active_holders, others_than}

abbrev pub set_tables : (Tables → Tables) → Db → Db
set_tables f d = record d { administration = f d.administration }

-- The keyword arguments of AdminAuditLog; those that a call leaves out are set by `record`.
abbrev pub admin_entry : String → ℕ → Option ℕ → String → AdminAuditLog
admin_entry event actor target request_id = record {
  event = event;
  actor_id = actor;
  target_id = target;
  old_roles = none;
  new_roles = none;
  severity = none;
  request_id = request_id;
  field = none;
  old_value = none;
  new_value = none;
  reason = none;
}

abbrev pub assign_roles : ℕ → ℕ → List ℕ → List UserRole → List UserRole
assign_roles now user ids rows =
    keep (λ (g : UserRole). not (g.user_id == user)) rows ++ new_grants now user ids

module _ {Store : Type 0} where
  unfoldable pub list_all_with_permissions : Action Store (List Role)
  unfolding query
  list_all_with_permissions = query λ d. d.administration.roles

  -- No name is in the empty list, which the code answers without a query.
  unfoldable pub get_by_names : List String → Action Store (List Role)
  unfolding query
  get_by_names names = query λ d. keep (named_in names) d.administration.roles

  unfoldable pub list_role_grants_for_user : ℕ → Action Store (List (String × ℕ))
  unfolding query grants
  list_role_grants_for_user user =
      query λ d. grants d.administration.roles user d.administration.user_roles

  unfoldable pub list_role_names_for_user : ℕ → Action Store (List String)
  unfolding query grants
  list_role_names_for_user user =
      query λ d. grant_names (grants d.administration.roles user d.administration.user_roles)

  -- FOR UPDATE: the rows are locked until the transaction ends.
  unfoldable pub count_active_admins_excluding : ℕ → ℕ → Action Store ℕ
  unfolding query active_holders others_than
  count_active_admins_excluding role user =
      query λ d. length (others_than user (active_holders role d.users d.administration.user_roles))

  -- A grant to a user that is not there violates a foreign key.
  unfoldable pub replace_for_user : ℕ → ℕ → List ℕ → Action Store (Unit {0})
  replace_for_user now user [] w = (
    ok tt,
    record w {
      db = set_tables (λ t. record t { user_roles = assign_roles now user [] t.user_roles }) w.db;
    },
  )
  replace_for_user now user (id ∷ ids) w =
      if is_some (find_row (λ (u : User). u.id == user) w.db.users)
      then (
        ok tt,
        record w {
          db =
              set_tables
                (λ t. record t { user_roles = assign_roles now user (id ∷ ids) t.user_roles }) w.db;
        },
      )
      else (err server_error, w)

  unfoldable pub create_admin_audit_log_entry : AdminAuditLog → Action Store (Unit {0})
  unfolding modify_db
  create_admin_audit_log_entry e =
      modify_db (set_tables (λ t. record t { admin_audit = t.admin_audit ++ e ∷ [] }))
