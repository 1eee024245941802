-- ===== src/Users/Login.antt =====
-- `authenticate_user` and `_evict_oldest_family_if_at_cap` of app/modules/users/service.py. The
-- `SELECT … FOR UPDATE` of `lock_live_refresh_tokens_for_user` has no effect in one session.
pub mod Opening
pub mod Refusal
pub mod Admission
pub mod Cap
use customer_portal.Prelude.{
  ℕ, ◌+◌, String, Bool, true, false, not, Option, none, some, List, [], ◌∷◌, ltb, leb, length,
  if◌then◌else◌,
}
use customer_portal.Valkey.{Valkey}
use customer_portal.Account.{reactivate_account}
use customer_portal.Users.Models.{
  User, UsersError, too_many_attempts, invalid_credentials, account_deactivated, email_not_verified,
}
use customer_portal.Users.World.{
  Action, Settings, Libraries, Collaborators, Moment, Client, seconds, ◌>>=◌, ◌>>◌, pure, raise,
  interleave, commit, in_session,
}
use customer_portal.Users.Repository.{
  entry, get_by_email, get_family_created_at_map_for_user, revoke_refresh_token_family,
  create_session, create_refresh_token, update_last_login_at, create_auth_audit_log_entry,
}
use customer_portal.Users.Cache.{
  get_ip_failure_count, get_ip_retry_after, get_account_failure_count, get_account_retry_after,
  record_ip_failure, record_account_failure, reset_account_failures, issue,
}
use customer_portal.Users.Refresh.{Minted, TokenResponse, token_response, is_deactivated}

abbrev pub older : ℕ × ℕ → ℕ × ℕ → ℕ × ℕ
older (f, i) (g, j) = if ltb j i then (g, j) else (f, i)

-- `min(family_created_at, key=…)`: the first family with the least instant.
unfoldable pub oldest : ℕ × ℕ → List (ℕ × ℕ) → ℕ × ℕ
oldest p [] = p
oldest p (q ∷ rest) = oldest (older p q) rest

-- `LoginResponse` with the cookie's token, or `MfaRequiredResponse`.
pub data LoginAnswer : Type 0 where
  logged_in : TokenResponse → LoginAnswer
  mfa_required : String → LoginAnswer

module _ (vk : Valkey) (l : Libraries) (s : Settings) (m : Moment) (client : Client) where
  unfoldable pub evict : ℕ → List (ℕ × ℕ) → Action vk.Store (Unit {0})
  unfolding oldest
  evict user [] = pure tt
  evict user (p ∷ rest) = do
    revoke_refresh_token_family m.db_now (oldest p rest).0
    create_auth_audit_log_entry (record (entry "session_evicted" (some user) client) {
      target_family = some (oldest p rest).0;
    })

  unfoldable pub evict_oldest_family_if_at_cap : ℕ → Action vk.Store (Unit {0})
  evict_oldest_family_if_at_cap user = do
    families ← get_family_created_at_map_for_user m.db_now user
    if leb s.max_live_sessions_per_user (length families) then evict user families else pure tt

  -- The writes of a successful login: those of `authenticate_user`, and of `_complete_mfa_login`,
  -- whose audit entry has a scope.
  unfoldable pub open_session : Option String → Minted → ℕ → Action vk.Store (Unit {0})
  open_session scope new user = do
    create_session m.db_now user new.jti (m.utc_now + seconds s.access_token_ttl_seconds)
    evict_oldest_family_if_at_cap user
    create_refresh_token (record {
      token_hash = l.sha256 new.raw_token;
      family_id = new.family_id;
      user_id = user;
      issued_at = m.db_now;
      expires_at = m.utc_now + seconds s.refresh_token_ttl_seconds;
      revoked_at = none;
      consumed_at = none;
      last_used_at = none;
      ip = some client.ip;
      user_agent = client.user_agent;
    })
    update_last_login_at m.db_now user
    create_auth_audit_log_entry
        (record (entry "login_succeeded" (some user) client) { scope = scope })
    commit

module _ (vk : Valkey) (l : Libraries) (s : Settings) (c : Collaborators) (m : Moment)
    (client : Client) where
  unfoldable pub limit_ip : Action vk.Store (Unit {0})
  limit_ip = do
    count ← get_ip_failure_count vk client.ip
    if leb s.login_failure_threshold_ip count
        then (do
          retry_after ← get_ip_retry_after vk client.ip
          raise (too_many_attempts retry_after))
        else pure tt

  unfoldable pub limit_account : Option User → Action vk.Store (Unit {0})
  limit_account none = pure tt
  limit_account (some u) = do
    count ← get_account_failure_count vk u.id
    if leb s.login_failure_threshold_account count
        then (do
          retry_after ← get_account_retry_after vk u.id
          raise (too_many_attempts retry_after))
        else pure tt

  -- The audit entry of a failed login, committed.
  unfoldable pub audit_failure : String → Option ℕ → Action vk.Store (Unit {0})
  audit_failure reason actor = do
    create_auth_audit_log_entry
        (record (entry "login_failed" actor client) { reason = some reason })
    commit

  unfoldable pub reject_unknown : Action vk.Store LoginAnswer
  reject_unknown = do
    audit_failure "unknown_email" none
    record_ip_failure vk client.ip s.login_throttle_window_seconds
    raise invalid_credentials

  unfoldable pub reject_password : ℕ → Action vk.Store LoginAnswer
  reject_password user = do
    audit_failure "bad_password" (some user)
    record_account_failure vk user s.login_throttle_window_seconds
    record_ip_failure vk client.ip s.login_throttle_window_seconds
    raise invalid_credentials

  unfoldable pub reject_account : String → ℕ → UsersError → Action vk.Store (Unit {0})
  reject_account reason user e = do audit_failure reason (some user); raise e

  -- The gates of the account's status.
  unfoldable pub admit : User → Action vk.Store (Unit {0})
  admit u =
      if is_deactivated u.status
      then (do
        reactivated ← reactivate_account m u.id
        if reactivated
            then pure tt
            else reject_account "account_deactivated" u.id account_deactivated)
      else if not u.email_verified
      then reject_account "email_not_verified" u.id email_not_verified
      else pure tt

  -- With what `secrets` and `uuid4` draw.
  unfoldable pub finish_login : String → Minted → User → Action vk.Store LoginAnswer
  finish_login raw_mfa_token new u =
      if u.mfa_enabled
      then (do
        issue vk (l.sha256 raw_mfa_token) u.id s.mfa_token_ttl_seconds
        pure (mfa_required raw_mfa_token))
      else (do
        open_session vk l s m client none new u.id
        reset_account_failures vk u.id
        pure (logged_in (token_response s c m.utc_now u new.jti new.raw_token)))

  unfoldable pub check_credentials :
      String → Minted → String → Option User → Action vk.Store LoginAnswer
  check_credentials raw_mfa_token new password none = reject_unknown
  check_credentials raw_mfa_token new password (some u) =
      if l.verify_password password u.hashed_password
      then (do interleave m.others; admit u; finish_login raw_mfa_token new u)
      else reject_password u.id

  unfoldable pub authenticate_user : String → Minted → String → String → Action vk.Store LoginAnswer
  authenticate_user raw_mfa_token new email password = in_session do
    limit_ip
    found ← get_by_email l email
    limit_account found
    check_credentials raw_mfa_token new password found
