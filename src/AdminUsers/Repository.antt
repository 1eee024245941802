-- ===== src/AdminUsers/Repository.antt =====
-- `AdminUserRepository` of app/modules/admin_users/repository.py, but for its list.
use text.Mathlib.Text.{◌==◌ as str_eq}
use customer_portal.Prelude.{
  ℕ, String, Bool, not, ◌&&◌, Option, none, some, List, [], ◌∷◌, ◌++◌, is_some, leb, ◌==◌, length,
  keep, find_row, update_rows, latest_row, false, true,
}
use customer_portal.Administration.Models.{InvitationToken}
use customer_portal.Users.Models.{User, Db, AccountLifecycleAuditLog, invited}
use customer_portal.Users.World.{Action, ok, modify_db, query}
use customer_portal.Account.{update_user as update_row, deactivate_set}
use customer_portal.Roles.Repository.{
  set_tables, admin_entry, grants, grant_names, new_grants, is_active, create_admin_audit_log_entry,
}

-- The columns that `UpdateUserRequest` names.
pub data EditableField : Type 0 where
  display_name locale timezone avatar_url : EditableField

abbrev pub get_field : EditableField → User → Option String
get_field display_name u = u.display_name
get_field locale u = u.locale
get_field timezone u = u.timezone
get_field avatar_url u = u.avatar_url

abbrev pub set_field : EditableField → Option String → User → User
set_field display_name v u = record u { display_name = v }
set_field locale v u = record u { locale = v }
set_field timezone v u = record u { timezone = v }
set_field avatar_url v u = record u { avatar_url = v }

abbrev pub set_fields : List (EditableField × Option String) → User → User
set_fields [] u = u
set_fields ((field, v) ∷ fields) u = set_fields fields (set_field field v u)

-- The row that `create` adds, with the defaults of the other columns.
abbrev pub invited_user : ℕ → ℕ → String → String → User
invited_user now id email name = record {
  id = id;
  email = email;
  hashed_password = "";
  status = invited;
  email_verified = false;
  created_at = now;
  display_name = some name;
  locale = none;
  timezone = none;
  avatar_url = none;
  deactivated_at = none;
  last_login_at = none;
  mfa_enabled = false;
  mfa_secret_encrypted = none;
  mfa_activated_at = none;
  mfa_reenrollment_required = false;
}

abbrev pub unconsumed : InvitationToken → Bool
unconsumed t = not (is_some t.consumed_at)

abbrev pub role_names : Db → ℕ → List String
role_names d user = grant_names (grants d.administration.roles user d.administration.user_roles)

abbrev pub with_role_names : Db → ℕ → Option User → Option (User × List String)
with_role_names d user none = none
with_role_names d user (some u) = some (u, role_names d user)

abbrev pub add_user : ℕ → User → List ℕ → Db → Db
add_user now u ids d =
    set_tables (λ t. record t { user_roles = t.user_roles ++ new_grants now u.id ids })
      (record d { users = d.users ++ u ∷ [] })

abbrev pub set_invitation_tokens : (List InvitationToken → List InvitationToken) → Db → Db
set_invitation_tokens f = set_tables λ t. record t { invitation_tokens = f t.invitation_tokens }

module _ {Store : Type 0} where
  unfoldable pub get_with_roles : ℕ → Action Store (Option (User × List String))
  unfolding query grants
  get_with_roles user =
      query λ d. with_role_names d user (find_row (λ (u : User). u.id == user) d.users)

  -- The email is unique, which is an IntegrityError otherwise, and the session is rolled back.
  unfoldable pub create : ℕ → User → List ℕ → Action Store (Option User)
  create now u ids w = elim (find_row (λ (v : User). str_eq v.email u.email) w.db.users) [
    | none ↦ (ok (some u), record w { db = add_user now u ids w.db })
    | some v ↦ (ok none, record w { db = w.committed })
  ]

  unfoldable pub update_fields :
      ℕ → List (EditableField × Option String) → Action Store (Option User)
  unfolding update_row
  update_fields user fields = update_row user (λ u. true) (set_fields fields)

  -- The guard is `status = 'active'`.
  unfoldable pub deactivate_if_active : ℕ → ℕ → Action Store (Option User)
  unfolding update_row
  deactivate_if_active now user = update_row user (λ u. is_active u.status) (deactivate_set now)

  unfoldable pub create_admin_audit_log_event :
      String → ℕ → Option ℕ → String → Action Store (Unit {0})
  unfolding create_admin_audit_log_entry
  create_admin_audit_log_event event actor target request_id =
      create_admin_audit_log_entry (admin_entry event actor target request_id)

  unfoldable pub create_admin_audit_log_field_change :
      ℕ → ℕ → String → Option String → Option String → String → String → Action Store (Unit {0})
  unfolding create_admin_audit_log_entry
  create_admin_audit_log_field_change actor target field old new reason request_id =
      create_admin_audit_log_entry
        (record (admin_entry "user_field_updated" actor (some target) request_id) {
          field = some field;
          old_value = old;
          new_value = new;
          reason = some reason;
        })

  unfoldable pub create_account_lifecycle_audit_log_entry :
      AccountLifecycleAuditLog → Action Store (Unit {0})
  unfolding modify_db
  create_account_lifecycle_audit_log_entry e =
      modify_db λ d. record d { account_audit = d.account_audit ++ e ∷ [] }

  unfoldable pub get_latest_unconsumed_invitation_token : ℕ → Action Store (Option InvitationToken)
  unfolding query
  get_latest_unconsumed_invitation_token user = query λ d.
      latest_row (λ (t : InvitationToken). t.issued_at)
        (keep (λ (t : InvitationToken). t.user_id == user && unconsumed t)
          d.administration.invitation_tokens)

  unfoldable pub get_latest_invitation_token : ℕ → Action Store (Option InvitationToken)
  unfolding query
  get_latest_invitation_token user = query λ d.
      latest_row (λ (t : InvitationToken). t.issued_at)
        (keep (λ (t : InvitationToken). t.user_id == user) d.administration.invitation_tokens)

  unfoldable pub count_invitation_tokens_issued_since : ℕ → ℕ → Action Store ℕ
  unfolding query
  count_invitation_tokens_issued_since user since = query λ d. length (
      keep (λ (t : InvitationToken). t.user_id == user && leb since t.issued_at)
        d.administration.invitation_tokens)

  unfoldable pub invalidate_invitation_token : ℕ → ℕ → Action Store (Unit {0})
  unfolding modify_db
  invalidate_invitation_token now id = modify_db (
      set_invitation_tokens (
        update_rows (λ (t : InvitationToken). t.id == id)
          (λ (t : InvitationToken). record t { consumed_at = some now })))

  unfoldable pub create_invitation_token : InvitationToken → Action Store (Unit {0})
  unfolding modify_db
  create_invitation_token t = modify_db (set_invitation_tokens λ ts. ts ++ t ∷ [])
