-- ===== src/Users/Mfa.antt =====
-- The second factor: `enroll_mfa`, `activate_mfa`, `verify_mfa` and `disable_mfa` of
-- app/modules/users/service.py, and `verify_totp_code` of app/core/security.py. A secret is a text.
pub mod Totp
pub mod Recovery
pub mod Steps
pub mod Verification
pub mod Once
pub mod Enrolment
pub mod Disable
use Prim.Native.Nat.{◌/◌}
use customer_portal.Prelude.{
  ℕ, ◌+◌, ◌-◌, String, Bool, true, false, not, ◌&&◌, ◌||◌, Option, none, some, List, [], ◌∷◌, map,
  is_some, leb, if◌then◌else◌,
}
use text.Mathlib.Text.{◌==◌ as str_eq}
use customer_portal.Valkey.{Valkey}
use customer_portal.Users.Models.{
  User, MfaRecoveryCode, invalid_credentials, mfa_invalid_code, too_many_attempts,
  mfa_required_for_role,
}
use customer_portal.Users.World.{
  Action, Settings, Libraries, Collaborators, Moment, Client, mfa_recovery_used_notice, ◌>>=◌, ◌>>◌,
  pure, raise, or_raise, raise_if, interleave, commit, in_session, try_send,
}
use customer_portal.Users.Repository.{
  entry, get_by_id, update_mfa_pending_secret, activate_mfa_row, set_mfa_reenrollment_required,
  disable_mfa_row, create_recovery_codes, list_unconsumed_recovery_codes, consume_recovery_code,
  delete_recovery_codes_for_user, create_auth_audit_log_entry,
}
use customer_portal.Users.Cache.{
  get_user_id, consume, record_failed_attempt, invalidate, mark_step_used, set_perm_epoch,
  set_revoke_before,
}
use customer_portal.Users.Refresh.{
  Minted, TokenResponse, token_response, is_privileged, resolve_enrollment_scoping,
}
use customer_portal.Users.Login.{open_session}

-- `int(moment.timestamp() // _TOTP_STEP_SECONDS)`
abbrev pub current_totp_step : ℕ → ℕ
current_totp_step at_ = at_ / 30000000

abbrev pub is_code : Libraries → String → String → ℕ → Bool
is_code l secret code step = str_eq (l.hotp secret step) code

-- The step that matches: the one before, this one, or the next. The clock is past the first step.
unfoldable pub verify_totp_code : Libraries → ℕ → String → String → Option ℕ
verify_totp_code l at_ secret code =
    let step = current_totp_step at_ in
    if is_code l secret code (step - 1)
    then some (step - 1)
    else if is_code l secret code step
    then some step
    else if is_code l secret code (step + 1)
    then some (step + 1)
    else none

-- `verify_totp_code` with the secret of the user, None without one.
unfoldable pub match_totp : Libraries → ℕ → String → Option String → Option ℕ
unfolding verify_totp_code
match_totp l at_ code none = none
match_totp l at_ code (some encrypted) = verify_totp_code l at_ (l.decrypt encrypted) code

-- What is drawn for a recovery code: the row's id, the code, and the salt of its hash.
pub record DrawnCode : Type 0 where
  pub id : ℕ
  pub code : String
  pub salt : ℕ

abbrev pub code_row : Libraries → ℕ → DrawnCode → MfaRecoveryCode
code_row l user drawn = record {
  id = drawn.id;
  user_id = user;
  code_hash = l.hash_password drawn.salt drawn.code;
  consumed_at = none;
}

abbrev pub code_text : DrawnCode → String
code_text drawn = drawn.code

abbrev pub any_privileged : List (String × ℕ) → Bool
any_privileged [] = false
any_privileged ((name, granted) ∷ grants) = is_privileged name || any_privileged grants

-- `user is None or not await verify_password(…)`
abbrev pub with_password : Libraries → String → Option User → Option User
with_password l password none = none
with_password l password (some u) =
    if l.verify_password password u.hashed_password then some u else none

module _ (vk : Valkey) (l : Libraries) (s : Settings) (c : Collaborators) (m : Moment)
    (client : Client) where
  -- With the secret and the nonce that are drawn; it answers the secret.
  unfoldable pub enroll_mfa : String → ℕ → ℕ → String → Action vk.Store String
  enroll_mfa secret nonce user current_password = in_session do
    found ← get_by_id user
    or_raise (with_password l current_password found) invalid_credentials
    update_mfa_pending_secret user (l.encrypt nonce secret)
    commit
    pure secret

  -- With the codes that are drawn.
  unfoldable pub activate_mfa : List DrawnCode → ℕ → String → Action vk.Store (List String)
  activate_mfa drawn user code = in_session do
    found ← get_by_id user
    u ← or_raise found mfa_invalid_code
    raise_if (not (is_some (match_totp l m.utc_now code u.mfa_secret_encrypted))) mfa_invalid_code
    create_recovery_codes (map (code_row l user) drawn)
    activate_mfa_row m.db_now user
    create_auth_audit_log_entry (entry "mfa_enabled" (some user) client)
    commit
    if (resolve_enrollment_scoping s c m.utc_now u).0
        then set_perm_epoch vk m.utc_now user s.perm_epoch_ttl_seconds
        else pure tt
    pure (map code_text drawn)

  -- The first candidate that the code matches is consumed.
  unfoldable pub consume_match : String → List MfaRecoveryCode → Action vk.Store Bool
  consume_match code [] = pure false
  consume_match code (r ∷ rest) =
      if l.verify_password code r.code_hash
      then (do
        interleave m.others
        consumed ← consume_recovery_code m.db_now r.id
        pure (is_some consumed))
      else consume_match code rest

  unfoldable pub try_consume_recovery_code : ℕ → String → Action vk.Store Bool
  try_consume_recovery_code user code = do
    candidates ← list_unconsumed_recovery_codes user
    consume_match code candidates

  -- `MfaVerifyResponse` shows no deadline.
  unfoldable pub complete_mfa_login : Minted → User → Action vk.Store TokenResponse
  complete_mfa_login new u = do
    open_session vk l s m client (some "mfa") new u.id
    pure (record (token_response s c m.utc_now u new.jti new.raw_token) {
      mfa_enrollment_deadline = none;
    })

  -- The UPDATE of the flag changes the loaded user too.
  unfoldable pub verify_by_recovery_code : Minted → String → User → Action vk.Store TokenResponse
  verify_by_recovery_code new hash u = do
    consume vk hash
    set_mfa_reenrollment_required u.id
    create_auth_audit_log_entry (entry "mfa_recovery_used" (some u.id) client)
    commit
    try_send (c.delivers (mfa_recovery_used_notice u.email)) (mfa_recovery_used_notice u.email)
    complete_mfa_login new (record u { mfa_reenrollment_required = true })

  -- A step that was marked before does not match.
  unfoldable pub match_new_step : ℕ → Option ℕ → Action vk.Store Bool
  match_new_step user none = pure false
  match_new_step user (some step) = mark_step_used vk user step s.mfa_token_ttl_seconds

  unfoldable pub reject_code : String → ℕ → Action vk.Store TokenResponse
  reject_code hash user = do
    attempts ← record_failed_attempt vk hash s.mfa_token_ttl_seconds
    create_auth_audit_log_entry (entry "mfa_verify_failed" (some user) client)
    commit
    if leb s.mfa_verify_lockout_threshold attempts
        then (do invalidate vk hash; raise (too_many_attempts 0))
        else raise mfa_invalid_code

  unfoldable pub verify_by_totp : Minted → String → User → String → Action vk.Store TokenResponse
  verify_by_totp new hash u code = do
    matched ← match_new_step u.id (match_totp l m.utc_now code u.mfa_secret_encrypted)
    if matched then (do consume vk hash; complete_mfa_login new u) else reject_code hash u.id

  unfoldable pub load_pending : String → Action vk.Store User
  load_pending hash = do
    pending ← get_user_id vk hash
    user ← or_raise pending mfa_invalid_code
    found ← get_by_id user
    or_raise found mfa_invalid_code

  unfoldable pub verify_code : Minted → String → String → User → Action vk.Store TokenResponse
  verify_code new hash code u = do
    recovered ← try_consume_recovery_code u.id code
    if recovered then verify_by_recovery_code new hash u else verify_by_totp new hash u code

  unfoldable pub verify_mfa : Minted → String → String → Action vk.Store TokenResponse
  verify_mfa new mfa_token code =
      in_session
        do u ← load_pending (l.sha256 mfa_token); verify_code new (l.sha256 mfa_token) code u

  -- Both factors are evaluated, and a wrong one is not told from the other.
  unfoldable pub disable_mfa : ℕ → String → String → Action vk.Store (Unit {0})
  disable_mfa user current_password code = in_session do
    found ← get_by_id user
    u ← or_raise found invalid_credentials
    raise_if
        (not (
          l.verify_password current_password u.hashed_password
          && is_some (match_totp l m.utc_now code u.mfa_secret_encrypted)))
        invalid_credentials
    raise_if (any_privileged (c.role_grants_of user)) mfa_required_for_role
    disable_mfa_row user
    delete_recovery_codes_for_user user
    create_auth_audit_log_entry (entry "mfa_disabled" (some user) client)
    commit
    set_revoke_before vk m.utc_now user s.refresh_token_ttl_seconds
