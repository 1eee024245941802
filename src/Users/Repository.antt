-- ===== src/Users/Repository.antt =====
-- `UserRepository` of app/modules/users/repository.py. The rows of a table stand in the order of
-- their insertion.
use text.Mathlib.Text.{◌==◌ as str_eq}
use customer_portal.Prelude.{
  ℕ, String, not, ◌&&◌, Option, none, some, List, [], ◌∷◌, ◌++◌, ◌==◌, find_row, update_rows, keep,
  false, true,
}
use customer_portal.Users.Models.{
  User, UserSession, RefreshToken, PasswordResetToken, MfaRecoveryCode, AuthAuditLog,
}
use customer_portal.Users.World.{Action, Libraries, Client, modify_db, query, ok}
pub use customer_portal.Users.Rows.{
  set_user, has_hash, is_unconsumed, consume_set, revoke_set, has_reset_hash, reset_unconsumed,
  reset_consume_set, is_other, code_unconsumed, has_code_id, code_consume_set, is_live,
}
unfoldable pub use customer_portal.Users.Rows.{add_family, family_created_at}

-- The keyword arguments of `create_auth_audit_log_entry`; those that most calls leave None are set by
-- `record`.
abbrev pub entry : String → Option ℕ → Client → AuthAuditLog
entry event actor c = record {
  event = event;
  reason = none;
  scope = none;
  severity = none;
  target_family = none;
  actor_id = actor;
  ip = c.ip;
  user_agent = c.user_agent;
  request_id = c.request_id;
}

module _ {Store : Type 0} where
  unfoldable pub get_by_id : ℕ → Action Store (Option User)
  unfolding query
  get_by_id id = query λ d. find_row (λ (u : User). u.id == id) d.users

  -- `func.lower(User.email) == email.lower()`
  unfoldable pub get_by_email : Libraries → String → Action Store (Option User)
  unfolding query
  get_by_email l email =
      query λ d. find_row (λ (u : User). str_eq (l.lower u.email) (l.lower email)) d.users

  unfoldable pub create_session : ℕ → ℕ → ℕ → ℕ → Action Store (Unit {0})
  unfolding modify_db
  create_session now user jti expires = modify_db λ d. record d {
    sessions =
        d.sessions
        ++ record {
          jti = jti;
          user_id = user;
          issued_at = now;
          expires_at = expires;
          revoked_at = none;
        }
          ∷ [];
  }

  unfoldable pub get_session_by_jti : ℕ → Action Store (Option UserSession)
  unfolding query
  get_session_by_jti jti = query λ d. find_row (λ (s : UserSession). s.jti == jti) d.sessions

  unfoldable pub revoke_session_row : ℕ → ℕ → Action Store (Unit {0})
  unfolding modify_db
  revoke_session_row now jti = modify_db λ d. record d {
    sessions =
        update_rows (λ (s : UserSession). s.jti == jti)
          (λ (s : UserSession). record s { revoked_at = some now }) d.sessions;
  }

  unfoldable pub revoke_sessions_except : ℕ → ℕ → Option ℕ → Action Store (Unit {0})
  unfolding modify_db
  revoke_sessions_except now user except = modify_db λ d. record d {
    sessions =
        update_rows (λ (s : UserSession). s.user_id == user && is_other except s)
          (λ (s : UserSession). record s { revoked_at = some now }) d.sessions;
  }

  unfoldable pub get_refresh_token_by_hash : String → Action Store (Option RefreshToken)
  unfolding query
  get_refresh_token_by_hash h = query λ d. find_row (has_hash h) d.refresh_tokens

  unfoldable pub revoke_refresh_token_family : ℕ → ℕ → Action Store (Unit {0})
  unfolding modify_db
  revoke_refresh_token_family now family = modify_db λ d. record d {
    refresh_tokens =
        update_rows (λ (t : RefreshToken). t.family_id == family) (revoke_set now) d.refresh_tokens;
  }

  -- UPDATE … WHERE token_hash = … AND consumed_at IS NULL RETURNING *
  unfoldable pub consume_refresh_token : ℕ → String → Action Store (Option RefreshToken)
  consume_refresh_token now h w =
      elim (find_row (λ t. has_hash h t && is_unconsumed t) w.db.refresh_tokens) [
        | none ↦ (ok none, w)
        | some t ↦ (
          ok (some (consume_set now t)),
          record w {
            db = record w.db {
              refresh_tokens =
                  update_rows (λ t. has_hash h t && is_unconsumed t) (consume_set now)
                    w.db.refresh_tokens;
            };
          },
        )
      ]

  unfoldable pub create_refresh_token : RefreshToken → Action Store (Unit {0})
  unfolding modify_db
  create_refresh_token t = modify_db λ d. record d { refresh_tokens = d.refresh_tokens ++ t ∷ [] }

  unfoldable pub update_last_login_at : ℕ → ℕ → Action Store (Unit {0})
  unfolding modify_db
  update_last_login_at now user =
      modify_db (set_user user λ u. record u { last_login_at = some now })

  unfoldable pub update_password_hash : ℕ → String → Action Store (Unit {0})
  unfolding modify_db
  update_password_hash user hash =
      modify_db (set_user user λ u. record u { hashed_password = hash })

  unfoldable pub create_auth_audit_log_entry : AuthAuditLog → Action Store (Unit {0})
  unfolding modify_db
  create_auth_audit_log_entry e = modify_db λ d. record d { audit = d.audit ++ e ∷ [] }

  unfoldable pub invalidate_password_reset_tokens_for_user : ℕ → ℕ → Action Store (Unit {0})
  unfolding modify_db
  invalidate_password_reset_tokens_for_user now user = modify_db λ d. record d {
    reset_tokens =
        update_rows (λ (t : PasswordResetToken). t.user_id == user && reset_unconsumed t)
          (reset_consume_set now) d.reset_tokens;
  }

  unfoldable pub create_password_reset_token : ℕ → ℕ → String → ℕ → Action Store (Unit {0})
  unfolding modify_db
  create_password_reset_token now user hash expires = modify_db λ d. record d {
    reset_tokens =
        d.reset_tokens
        ++ record {
          user_id = user;
          token_hash = hash;
          issued_at = now;
          expires_at = expires;
          consumed_at = none;
        }
          ∷ [];
  }

  unfoldable pub get_password_reset_token_by_hash :
      String → Action Store (Option PasswordResetToken)
  unfolding query
  get_password_reset_token_by_hash h = query λ d. find_row (has_reset_hash h) d.reset_tokens

  unfoldable pub consume_password_reset_token :
      ℕ → String → Action Store (Option PasswordResetToken)
  consume_password_reset_token now h w =
      elim (find_row (λ t. has_reset_hash h t && reset_unconsumed t) w.db.reset_tokens) [
        | none ↦ (ok none, w)
        | some t ↦ (
          ok (some (reset_consume_set now t)),
          record w {
            db = record w.db {
              reset_tokens =
                  update_rows (λ t. has_reset_hash h t && reset_unconsumed t)
                    (reset_consume_set now) w.db.reset_tokens;
            };
          },
        )
      ]

  unfoldable pub get_any_refresh_token_for_family : ℕ → ℕ → Action Store (Option RefreshToken)
  unfolding query
  get_any_refresh_token_for_family family user = query λ d.
      find_row (λ (t : RefreshToken). t.family_id == family && t.user_id == user) d.refresh_tokens

  unfoldable pub get_family_created_at_map_for_user : ℕ → ℕ → Action Store (List (ℕ × ℕ))
  unfolding query family_created_at
  get_family_created_at_map_for_user now user =
      query λ d. family_created_at (keep (is_live now user) d.refresh_tokens)

  -- `create`: the email is unique, which is an IntegrityError otherwise.
  unfoldable pub create_user : User → Action Store (Option User)
  create_user u w = elim (find_row (λ (v : User). str_eq v.email u.email) w.db.users) [
    | none ↦ (ok (some u), record w { db = record w.db { users = w.db.users ++ u ∷ [] } })
    | some v ↦ (ok none, record w { db = w.committed })
  ]

  unfoldable pub update_mfa_pending_secret : ℕ → String → Action Store (Unit {0})
  unfolding modify_db
  update_mfa_pending_secret user secret =
      modify_db (set_user user λ u. record u { mfa_secret_encrypted = some secret })

  unfoldable pub activate_mfa_row : ℕ → ℕ → Action Store (Unit {0})
  unfolding modify_db
  activate_mfa_row now user = modify_db (
      set_user user λ u. record u {
        mfa_enabled = true;
        mfa_activated_at = some now;
        mfa_reenrollment_required = false;
      })

  unfoldable pub set_mfa_reenrollment_required : ℕ → Action Store (Unit {0})
  unfolding modify_db
  set_mfa_reenrollment_required user =
      modify_db (set_user user λ u. record u { mfa_reenrollment_required = true })

  unfoldable pub disable_mfa_row : ℕ → Action Store (Unit {0})
  unfolding modify_db
  disable_mfa_row user = modify_db (
      set_user user λ u. record u {
        mfa_enabled = false;
        mfa_secret_encrypted = none;
        mfa_activated_at = none;
        mfa_reenrollment_required = false;
      })

  unfoldable pub create_recovery_codes : List MfaRecoveryCode → Action Store (Unit {0})
  unfolding modify_db
  create_recovery_codes codes =
      modify_db λ d. record d { recovery_codes = d.recovery_codes ++ codes }

  unfoldable pub list_unconsumed_recovery_codes : ℕ → Action Store (List MfaRecoveryCode)
  unfolding query
  list_unconsumed_recovery_codes user =
      query
        λ d. keep (λ (r : MfaRecoveryCode). r.user_id == user && code_unconsumed r) d.recovery_codes

  unfoldable pub consume_recovery_code : ℕ → ℕ → Action Store (Option MfaRecoveryCode)
  consume_recovery_code now id w =
      elim (find_row (λ r. has_code_id id r && code_unconsumed r) w.db.recovery_codes) [
        | none ↦ (ok none, w)
        | some r ↦ (
          ok (some (code_consume_set now r)),
          record w {
            db = record w.db {
              recovery_codes =
                  update_rows (λ r. has_code_id id r && code_unconsumed r) (code_consume_set now)
                    w.db.recovery_codes;
            };
          },
        )
      ]

  unfoldable pub delete_recovery_codes_for_user : ℕ → Action Store (Unit {0})
  unfolding modify_db
  delete_recovery_codes_for_user user = modify_db λ d. record d {
    recovery_codes = keep (λ (r : MfaRecoveryCode). not (r.user_id == user)) d.recovery_codes;
  }
