-- ===== src/AdminUsers.antt =====
-- `AdminUserService` of app/modules/admin_users/service.py, but for its list. `create_with`,
-- `audit_changes`, `write_changes`, `check_resend` and `invalidate_prior` are parts of its methods.
pub mod Payloads
pub mod Repository
pub mod Order
pub mod Listing
pub mod Cuts
pub mod Pages
pub mod Limits
pub mod Update
pub mod Deactivation
pub mod Creation
use customer_portal.AdminUsers.Payloads.{
  Texts, Drawn, Body, compute_profile_etag, UserRead, Caller, to_user_read, UpdateUserRequest,
  field_name, CreateUserRequest, etag_fields, is_invited, hourly_cap_retry_after_seconds, matches,
  any_immutable,
}
use text.Mathlib.Text.{◌==◌ as str_eq}
use Prim.Native.String.{◌++◌ as append}
use customer_portal.Prelude.{
  ℕ, ◌+◌, ◌-◌, ◌*◌, String, Bool, true, false, not, ◌&&◌, ◌||◌, Option, none, some, List, [], ◌∷◌,
  ◌++◌, ◌==◌, ltb, leb, is_some, sorted_texts, if◌then◌else◌,
}
use Prim.Native.Nat.{◌/◌}
use customer_portal.Valkey.{Valkey}
use customer_portal.Administration.Models.{InvitationToken}
use customer_portal.Users.Models.{
  User, UserStatus, invited, deactivated, not_found, precondition_required, precondition_failed,
  immutable_field, validation_failed, cannot_target_self, already_deactivated,
  invalid_state_transition, email_already_registered, too_many_attempts, server_error,
}
use customer_portal.Users.World.{
  Action, Settings, Libraries, Collaborators, Moment, Email, invitation, seconds, hours, ◌>>=◌,
  ◌>>◌, pure, raise, or_raise, raise_if, interleave, commit, in_session, attempt, ok, err,
}
use customer_portal.Users.Cache.{set_revoke_before}
use customer_portal.Roles.Repository.{in_texts}
use customer_portal.Roles.{raise_if_last_admin, resolve_role_ids_for_grant, is_empty}
use customer_portal.AdminUsers.Repository.{
  EditableField, display_name, locale, timezone, avatar_url, get_field, invited_user,
  get_with_roles, create, update_fields, deactivate_if_active, create_admin_audit_log_event,
  create_admin_audit_log_field_change, create_account_lifecycle_audit_log_entry,
  get_latest_unconsumed_invitation_token, get_latest_invitation_token,
  count_invitation_tokens_issued_since, invalidate_invitation_token, create_invitation_token,
}

module _ {Store : Type 0} where
  -- The mail server's failure is raised.
  unfoldable pub send : Bool → Email → Action Store (Unit {0})
  send accepted e w =
      if accepted then (ok tt, record w { outbox = w.outbox ++ e ∷ [] }) else (err server_error, w)

module _ (vk : Valkey) (l : Libraries) (x : Texts) (c : Collaborators) (s : Settings)
    (m : Moment) where
  abbrev etag : User → String
  etag u = compute_profile_etag l x (etag_fields u)

  unfoldable pub get_user : ℕ → Action vk.Store (UserRead × String)
  get_user user = in_session do
    result ← get_with_roles user
    found ← or_raise result not_found
    pure (to_user_read found.0 found.1, etag found.0)

  -- `_issue_invitation`
  unfoldable pub issue_invitation : Drawn → User → Action vk.Store (Unit {0})
  unfolding send
  issue_invitation drawn u = do
    create_invitation_token (record {
      id = drawn.token_id;
      user_id = u.id;
      token_hash = l.sha256 drawn.raw_token;
      issued_at = m.db_now;
      expires_at = m.utc_now + hours s.invitation_token_ttl_hours;
      consumed_at = none;
    })
    commit
    send (c.delivers (invitation u.email drawn.raw_token)) (invitation u.email drawn.raw_token)

  unfoldable pub create_with :
      Caller → Drawn → CreateUserRequest → List ℕ → Action vk.Store (UserRead × String)
  create_with by drawn payload role_ids = do
    interleave m.others
    created ←
        create m.db_now
          (invited_user m.db_now drawn.user_id (l.lower (l.strip payload.email))
            payload.display_name)
          role_ids
    u ← or_raise created email_already_registered
    create_admin_audit_log_event "user_created" by.actor_id (some u.id) by.request_id
    commit
    attempt (issue_invitation drawn u)
    result ← get_with_roles u.id
    found ← or_raise result server_error
    pure (to_user_read found.0 found.1, etag found.0)

  unfoldable pub create_user :
      Caller → Drawn → CreateUserRequest → Action vk.Store (UserRead × String)
  create_user by drawn payload = in_session do
    role_ids ← resolve_role_ids_for_grant by.actor_id by.actor_scopes payload.roles by.request_id
    create_with by drawn payload role_ids

  unfoldable pub audit_changes :
      Caller → ℕ → User → String → List (EditableField × Option String) → Action vk.Store (Unit {0})
  audit_changes by target old reason [] = pure tt
  audit_changes by target old reason ((field, value) ∷ fields) = do
    create_admin_audit_log_field_change by.actor_id target (field_name field) (get_field field old)
        value reason by.request_id
    audit_changes by target old reason fields

  unfoldable pub write_changes : Caller → User → UpdateUserRequest → Action vk.Store User
  write_changes by old payload = do
    interleave m.others
    updated ← update_fields old.id payload.fields
    u ← or_raise updated not_found
    audit_changes by old.id old payload.reason payload.fields
    commit
    pure u

  unfoldable pub check_update : User → Option String → Body → Action vk.Store UpdateUserRequest
  check_update u if_match body = do
    raise_if (not (is_some if_match)) precondition_required
    raise_if (not (matches if_match (etag u))) precondition_failed
    raise_if (any_immutable body.names) immutable_field
    or_raise body.validated (validation_failed "body")

  unfoldable pub update_user :
      Caller → ℕ → Body → Option String → Action vk.Store (UserRead × String)
  update_user by target body if_match = in_session do
    result ← get_with_roles target
    found ← or_raise result not_found
    payload ← check_update found.0 if_match body
    u ← if is_empty payload.fields then pure found.0 else write_changes by found.0 payload
    pure (to_user_read u found.1, etag u)

  unfoldable pub write_deactivation : Caller → ℕ → String → Action vk.Store User
  write_deactivation by target reason = do
    raise_if_last_admin target
    updated ← deactivate_if_active m.db_now target
    u ← or_raise updated already_deactivated
    create_account_lifecycle_audit_log_entry (record {
      user_id = target;
      event = "deactivated";
      actor = append "admin:" (x.uuid_text by.actor_id);
      reason = some reason;
    })
    commit
    pure u

  -- The rows of the administrators are locked from the last-administrator check to the commit.
  unfoldable pub deactivate_user : Caller → ℕ → String → Action vk.Store UserRead
  deactivate_user by target reason = in_session do
    raise_if (target == by.actor_id) cannot_target_self
    result ← get_with_roles target
    found ← or_raise result not_found
    interleave m.others
    u ← write_deactivation by target reason
    set_revoke_before vk m.utc_now target s.refresh_token_ttl_seconds
    pure (
        to_user_read (record found.0 { status = deactivated; deactivated_at = u.deactivated_at })
          found.1)

  -- `int(cooldown - elapsed)`: the whole seconds that are left.
  unfoldable pub check_cooldown : Option InvitationToken → Action vk.Store (Unit {0})
  check_cooldown none = pure tt
  check_cooldown (some t) =
      let free_at = t.issued_at + seconds s.resend_cooldown_seconds in
      raise_if (ltb m.utc_now free_at) (too_many_attempts ((free_at - m.utc_now) / seconds 1))

  unfoldable pub invalidate_prior : Option InvitationToken → Action vk.Store (Unit {0})
  invalidate_prior none = pure tt
  invalidate_prior (some t) = invalidate_invitation_token m.db_now t.id

  unfoldable pub resend_invite : Caller → Drawn → ℕ → Action vk.Store (Unit {0})
  resend_invite by drawn target = in_session do
    result ← get_with_roles target
    found ← or_raise result not_found
    raise_if (not (is_invited found.0.status)) invalid_state_transition
    last ← get_latest_invitation_token target
    check_cooldown last
    recent ← count_invitation_tokens_issued_since target (m.utc_now - hours 1)
    raise_if (leb s.invitation_resend_hourly_limit recent)
        (too_many_attempts hourly_cap_retry_after_seconds)
    interleave m.others
    prior ← get_latest_unconsumed_invitation_token target
    invalidate_prior prior
    issue_invitation drawn found.0
    create_admin_audit_log_event "invitation_resent" by.actor_id (some target) by.request_id
    commit
