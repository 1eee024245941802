-- ===== src/Roles.antt =====
-- `RoleService` of app/modules/roles/service.py, and the scope check of its dependencies.py. The names
-- of the methods are the code's, `deny_escalation` and `raise_if_no_other_admin` are parts of them.
pub mod Rows
pub mod Repository
pub mod Scopes
pub mod Steps
pub mod Outcome
pub mod Escalation
use customer_portal.Prelude.{
  ℕ, String, Bool, true, false, not, ◌&&◌, ◌||◌, Option, none, some, List, [], ◌∷◌, ◌==◌,
  if◌then◌else◌, sorted_set, sorted_texts, map,
}
use customer_portal.Valkey.{Valkey}
use customer_portal.Administration.Models.{Role}
use customer_portal.Users.Models.{
  insufficient_permission, self_role_change, privilege_escalation, last_admin, validation_failed,
}
use customer_portal.Users.World.{
  Action, Settings, Moment, ◌>>=◌, ◌>>◌, pure, raise, raise_if, interleave, commit, in_session, ok,
}
use customer_portal.Users.Cache.{set_perm_epoch}
use customer_portal.Roles.Repository.{
  in_texts, is_subset, is_distinct, names_of, role_ids_of, scopes_of_roles, admin_entry,
  list_all_with_permissions, get_by_names, list_role_grants_for_user, list_role_names_for_user,
  count_active_admins_excluding, replace_for_user, create_admin_audit_log_entry,
}

abbrev pub admin_role_name : String
admin_role_name = "admin"

abbrev pub is_empty {ℓ} : {A : Type ℓ} → List A → Bool
is_empty [] = true
is_empty (x ∷ xs) = false

abbrev pub summary : Role → String × List String
summary r = (r.name, sorted_texts r.permissions)

module _ {Store : Type 0} where
  unfoldable pub require_scope : String → List String → Action Store (Unit {0})
  require_scope scope scopes = raise_if (not (in_texts scope scopes)) insufficient_permission

  unfoldable pub list_catalogue : Action Store (List (String × List String))
  list_catalogue = do roles ← list_all_with_permissions; pure (map summary roles)

  -- Without names the code answers before the second query, which finds no role then.
  unfoldable pub resolve_scopes_for_user : ℕ → Action Store (List String)
  resolve_scopes_for_user user = do
    names ← list_role_names_for_user user
    roles ← get_by_names names
    pure (sorted_set (scopes_of_roles roles))

  unfoldable pub get_role_grants_for_user : ℕ → Action Store (List (String × ℕ))
  get_role_grants_for_user user = list_role_grants_for_user user

  -- The entry is committed before the error is raised.
  unfoldable pub deny_escalation : ℕ → Option ℕ → List String → String → Action Store (Unit {0})
  deny_escalation actor target names request_id = do
    create_admin_audit_log_entry (record (admin_entry "authz_denied" actor target request_id) {
      new_roles = some names;
      severity = some "high";
    })
    commit
    raise privilege_escalation

  unfoldable pub raise_if_sole : ℕ → List Role → Action Store (Unit {0})
  raise_if_sole user [] = pure tt
  raise_if_sole user (r ∷ rs) = do
    remaining ← count_active_admins_excluding r.id user
    raise_if (remaining == 0) last_admin

  unfoldable pub raise_if_no_other_admin : ℕ → Action Store (Unit {0})
  raise_if_no_other_admin user = do
    admins ← get_by_names (admin_role_name ∷ [])
    raise_if_sole user admins

  unfoldable pub raise_if_last_admin : ℕ → Action Store (Unit {0})
  raise_if_last_admin user = do
    names ← list_role_names_for_user user
    if in_texts admin_role_name names then raise_if_no_other_admin user else pure tt

  unfoldable pub resolve_role_ids_for_grant :
      ℕ → List String → List String → String → Action Store (List ℕ)
  resolve_role_ids_for_grant actor scopes names request_id = do
    roles ← get_by_names names
    if is_subset (scopes_of_roles roles) scopes
        then pure tt
        else deny_escalation actor none (sorted_texts (names_of roles)) request_id
    pure (role_ids_of roles)

-- The arguments of `replace_user_roles`.
pub record Replacement : Type 0 where
  pub actor_id : ℕ
  pub actor_scopes : List String
  pub target_id : ℕ
  pub requested_role_names : List String
  pub request_id : String

module _ (vk : Valkey) (s : Settings) where
  -- The role set that the request asks for, which the actor may grant.
  unfoldable pub load_requested : Replacement → Action vk.Store (List Role)
  load_requested r = do
    raise_if (r.target_id == r.actor_id) self_role_change
    raise_if (is_empty r.requested_role_names || not (is_distinct r.requested_role_names))
        (validation_failed "invalid_roles")
    roles ← get_by_names r.requested_role_names
    raise_if (not (is_subset r.requested_role_names (names_of roles)))
        (validation_failed "unknown_role")
    if is_subset (scopes_of_roles roles) r.actor_scopes
        then pure tt
        else deny_escalation r.actor_id (some r.target_id) (sorted_set (names_of roles))
            r.request_id
    pure roles

  unfoldable pub write_roles :
      Moment → Replacement → List Role → List String → Action vk.Store (Unit {0})
  write_roles m r roles old = do
    replace_for_user m.db_now r.target_id (role_ids_of roles)
    create_admin_audit_log_entry
        (record (admin_entry "roles_replaced" r.actor_id (some r.target_id) r.request_id) {
          old_roles = some old;
          new_roles = some (sorted_set (names_of roles));
        })
    commit

  unfoldable pub expire_permissions :
      Moment → Replacement → List Role → List String → Action vk.Store (List String)
  expire_permissions m r roles old = do
    write_roles m r roles old
    set_perm_epoch vk m.utc_now r.target_id s.perm_epoch_ttl_seconds
    pure (sorted_set (names_of roles))

  unfoldable pub keep_an_admin : Replacement → List Role → List String → Action vk.Store (Unit {0})
  keep_an_admin r roles old =
      if in_texts admin_role_name old && not (in_texts admin_role_name (names_of roles))
      then raise_if_no_other_admin r.target_id
      else pure tt

  -- Other sessions may commit until the rows of the administrators are locked.
  unfoldable pub replace_loaded : Moment → Replacement → List Role → Action vk.Store (List String)
  replace_loaded m r roles = do
    old ← list_role_names_for_user r.target_id
    interleave m.others
    keep_an_admin r roles old
    expire_permissions m r roles old

  unfoldable pub replace_user_roles : Moment → Replacement → Action vk.Store (List String)
  replace_user_roles m r = in_session do roles ← load_requested r; replace_loaded m r roles
