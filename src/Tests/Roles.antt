-- ===== src/Tests/Roles.antt =====
-- Roles and the accounts of others at concrete inputs.
use customer_portal.Users.Cache.{set_perm_epoch}
use customer_portal.Roles.Repository.{
  get_by_names, list_role_names_for_user, count_active_admins_excluding, replace_for_user,
  create_admin_audit_log_entry,
}
use customer_portal.Prelude.{
  String, ◌≡◌, refl, inl, inr, some, [], ◌∷◌, List, Ascending, Member, ◌↔◌, sorted_set,
}
use customer_portal.Administration.Admins.{HasAdmin}
use customer_portal.Administration.History.{
  Request, replacing, deactivating, creating, serve_all, serve_all-HasAdmin,
}
use customer_portal.Users.World.{World, ok, defaults, ◌>>=◌}
use customer_portal.Roles.{
  Replacement, replace_user_roles, resolve_scopes_for_user, load_requested, replace_loaded,
  keep_an_admin, raise_if_no_other_admin, raise_if_sole, expire_permissions, write_roles,
}
use customer_portal.Roles.Outcome.{Replaces, replace_user_roles-Replaces}
use customer_portal.Roles.Escalation.{replace_user_roles-HasScope}
use customer_portal.Roles.Scopes.{HasScope, resolve_scopes_for_user-Refines}
use customer_portal.AdminUsers.{create_user, update_user, deactivate_user}
use customer_portal.AdminUsers.Payloads.{CreateUserRequest, Body}
use customer_portal.AdminUsers.Repository.{locale}
use customer_portal.AdminUsers.Creation.{Creates, create_user-Creates}
use customer_portal.AdminUsers.Update.{Updates, update_user-Updates}
use customer_portal.AdminUsers.Deactivation.{Deactivates, deactivate_user-Deactivates}
use customer_portal.Tests.Accounts.{libraries, services, moment}
use customer_portal.Tests.Cache.{valkey, valkey_start}
use customer_portal.Tests.Directory.{
  directory, portal, directory-RoleKeys, texts, admin, drawn, admin_role, customer_role,
}

abbrev start : World valkey.Store
start = portal valkey_start

-- Another administrator becomes a customer.
abbrev replacement : Replacement
replacement = record {
  actor_id = 7;
  actor_scopes = admin.actor_scopes;
  target_id = 8;
  requested_role_names = "customer" ∷ [];
  request_id = "r";
}

abbrev new_account : CreateUserRequest
new_account = record {
  email = "other@example.org";
  display_name = "Other";
  roles = "customer" ∷ [];
}

abbrev requests : List Request
requests =
    replacing moment replacement
    ∷ creating moment admin drawn new_account
    ∷ deactivating moment admin 8 "left"
    ∷ []

serve_all-HasAdmin_example :
    HasAdmin (serve_all valkey libraries texts services defaults requests start).committed
serve_all-HasAdmin_example =
    serve_all-HasAdmin valkey libraries texts services defaults requests start
      ((λ d. refl), ((λ d. refl), ((λ d. refl), tt))) directory-RoleKeys
      (
        admin_role,
        record { user_id = 7; role_id = 1; granted_at = 1 },
        (inl refl, refl),
        (inl refl, refl, refl),
      )

replace_user_roles-Replaces_example :
    Replaces valkey defaults moment replacement start
      (replace_user_roles valkey defaults moment replacement start)
replace_user_roles-Replaces_example =
    replace_user_roles-Replaces valkey defaults moment replacement start

abbrev after_replacement : World valkey.Store
after_replacement = (replace_user_roles valkey defaults moment replacement start).1

replaced :
    replace_user_roles valkey defaults moment replacement start
    ≡ (ok ("customer" ∷ []), after_replacement)
unfolding replace_user_roles load_requested replace_loaded keep_an_admin raise_if_no_other_admin
    raise_if_sole expire_permissions write_roles get_by_names list_role_names_for_user
    count_active_admins_excluding replace_for_user create_admin_audit_log_entry set_perm_epoch
    sorted_set ◌>>=◌
replaced = refl

new_scope : HasScope after_replacement.committed.administration 8 "tickets:read"
unfolding replace_user_roles load_requested replace_loaded keep_an_admin raise_if_no_other_admin
    raise_if_sole expire_permissions write_roles get_by_names list_role_names_for_user
    count_active_admins_excluding replace_for_user create_admin_audit_log_entry set_perm_epoch ◌>>=◌
new_scope = (
  record { user_id = 8; role_id = 2; granted_at = 101 },
  customer_role,
  inr (inl refl),
  inr (inl refl),
  refl,
  refl,
  inl refl,
)

replace_user_roles-HasScope_example : Member "tickets:read" admin.actor_scopes
replace_user_roles-HasScope_example =
    replace_user_roles-HasScope valkey defaults moment replacement start after_replacement
      ("customer" ∷ []) "tickets:read" replaced directory-RoleKeys refl new_scope

resolve_scopes_for_user-Refines_example :
    (scopes : List String) × (resolve_scopes_for_user 7 start ≡ (ok scopes, start))
    × Ascending scopes
    × ((scope : String) → Member scope scopes ↔ HasScope directory.administration 7 scope)
    × ((other : List String)
        → Ascending other
        → ((scope : String) → Member scope other ↔ HasScope directory.administration 7 scope)
        → other ≡ scopes)
resolve_scopes_for_user-Refines_example = resolve_scopes_for_user-Refines start 7 directory-RoleKeys

deactivate_user-Deactivates_example :
    Deactivates valkey libraries texts services defaults moment admin 8 "left" start
      (deactivate_user valkey libraries texts services defaults moment admin 8 "left" start)
deactivate_user-Deactivates_example =
    deactivate_user-Deactivates valkey libraries texts services defaults moment admin 8 "left" start

create_user-Creates_example :
    Creates valkey libraries texts services defaults moment admin drawn new_account start
      (create_user valkey libraries texts services defaults moment admin drawn new_account start)
create_user-Creates_example =
    create_user-Creates valkey libraries texts services defaults moment admin drawn new_account
      start

abbrev body : Body
body = record {
  names = "locale" ∷ "reason" ∷ [];
  validated = some record { fields = (locale, some "uk") ∷ []; reason = "moved" };
}

update_user-Updates_example :
    Updates valkey libraries texts services defaults moment admin 8 body
      (some "*")
      start
      (update_user valkey libraries texts services defaults moment admin 8 body (some "*") start)
update_user-Updates_example =
    update_user-Updates valkey libraries texts services defaults moment admin 8 body (some "*")
      start
