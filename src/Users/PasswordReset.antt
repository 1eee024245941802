-- ===== src/Users/PasswordReset.antt =====
-- `request_password_reset` and `confirm_password_reset` of app/modules/users/service.py.
pub mod Confirm
pub mod Once
pub mod RoundTrip
pub mod Request
use customer_portal.Prelude.{
  ℕ, ◌+◌, ◌*◌, String, Bool, true, false, not, ◌&&◌, Option, none, some, List, [], ◌∷◌, ◌++◌,
  is_some, ltb, leb, if◌then◌else◌,
}
use customer_portal.Valkey.{
  Valkey, CacheKey, password_reset_cooldown_key, password_reset_account_hourly_key,
  password_reset_ip_hourly_key,
}
use customer_portal.Users.Models.{
  User, PasswordResetToken, too_many_attempts, reset_token_invalid, reset_token_expired,
  password_policy,
}
use customer_portal.Users.World.{
  Action, Settings, Libraries, Collaborators, Moment, Client, password_reset, password_reset_notice,
  seconds, ◌>>=◌, ◌>>◌, pure, raise, or_raise, raise_if, interleave, commit, in_session, try_send,
}
use customer_portal.Users.Repository.{
  entry, get_by_id, get_by_email, invalidate_password_reset_tokens_for_user,
  create_password_reset_token, get_password_reset_token_by_hash, consume_password_reset_token,
  update_password_hash, create_auth_audit_log_entry,
}
use customer_portal.Users.Cache.{record_attempt, attempt_retry_after, set_revoke_before}
use customer_portal.Users.Refresh.{is_deactivated}

abbrev pub password_reset_hourly_window_seconds : ℕ
password_reset_hourly_window_seconds = 3600

abbrev pub min_reset_password_length : ℕ
min_reset_password_length = 12

-- `_hash_password_reset_token`
abbrev pub hash_password_reset_token : Libraries → String → String
hash_password_reset_token l raw = l.sha256 raw

abbrev pub is_eligible : User → Bool
is_eligible u = not (is_deactivated u.status) && u.email_verified

-- The account that the request may reset.
abbrev pub eligible : Option User → Option User
eligible none = none
eligible (some u) = if is_eligible u then some u else none

abbrev pub id_of : Option User → Option ℕ
id_of none = none
id_of (some u) = some u.id

-- The rules that the new password breaks.
unfoldable pub broken_rules : Libraries → User → String → List String
broken_rules l u password =
    (if ltb (l.length password) min_reset_password_length then "min_length" ∷ [] else [])
    ++ (if l.is_breached_password password then "breached" ∷ [] else [])
    ++ (if l.verify_password password u.hashed_password then "reused" ∷ [] else [])

abbrev pub is_empty : List String → Bool
is_empty [] = true
is_empty (x ∷ xs) = false

module _ (vk : Valkey) (l : Libraries) (s : Settings) (c : Collaborators) (m : Moment)
    (client : Client) where
  unfoldable pub limit_attempts : CacheKey → ℕ → ℕ → Action vk.Store (Unit {0})
  limit_attempts key window limit = do
    count ← record_attempt vk key window
    if ltb limit count
        then (do retry_after ← attempt_retry_after vk key; raise (too_many_attempts retry_after))
        else pure tt

  -- The three limits, in this order.
  unfoldable pub limit_requests : String → Action vk.Store (Unit {0})
  limit_requests email_hash = do
    limit_attempts (password_reset_cooldown_key email_hash) s.password_reset_cooldown_seconds 1
    limit_attempts (password_reset_account_hourly_key email_hash)
        password_reset_hourly_window_seconds s.password_reset_account_hourly_limit
    limit_attempts (password_reset_ip_hourly_key client.ip) password_reset_hourly_window_seconds
        s.password_reset_ip_hourly_limit

  unfoldable pub issue_token : String → Option User → Action vk.Store (Unit {0})
  issue_token raw none = pure tt
  issue_token raw (some u) = do
    invalidate_password_reset_tokens_for_user m.db_now u.id
    create_password_reset_token m.db_now u.id (hash_password_reset_token l raw)
        (m.utc_now + seconds (s.password_reset_token_ttl_minutes * 60))

  unfoldable pub send_token : String → Option User → Action vk.Store (Unit {0})
  send_token raw none = pure tt
  send_token raw (some u) =
      try_send (c.delivers (password_reset u.email raw)) (password_reset u.email raw)

  -- With the token that `secrets` draws and the email of the request.
  unfoldable pub request_password_reset : String → String → Action vk.Store (Unit {0})
  request_password_reset raw email = in_session do
    limit_requests (l.sha256 (l.lower (l.strip email)))
    found ← get_by_email l (l.lower (l.strip email))
    issue_token raw (eligible found)
    create_auth_audit_log_entry (entry "password_reset_requested" (id_of found) client)
    commit
    send_token raw (eligible found)

  -- The checks of the token's row.
  unfoldable pub load_reset_token : String → Action vk.Store PasswordResetToken
  load_reset_token hash = do
    found ← get_password_reset_token_by_hash hash
    t ← or_raise found reset_token_invalid
    raise_if (is_some t.consumed_at) reset_token_invalid
    raise_if (leb t.expires_at m.utc_now) reset_token_expired
    pure t

  unfoldable pub load_account : PasswordResetToken → String → Action vk.Store User
  load_account t new_password = do
    found ← get_by_id t.user_id
    u ← or_raise found reset_token_invalid
    raise_if (not (is_empty (broken_rules l u new_password)))
        (password_policy (broken_rules l u new_password))
    pure u

  -- The writes.
  unfoldable pub set_password : ℕ → User → String → Action vk.Store (Unit {0})
  set_password salt u new_password = do
    update_password_hash u.id (l.hash_password salt new_password)
    set_revoke_before vk m.utc_now u.id s.refresh_token_ttl_seconds
    create_auth_audit_log_entry (entry "password_reset_completed" (some u.id) client)
    commit
    try_send (c.delivers (password_reset_notice u.email)) (password_reset_notice u.email)

  unfoldable pub consume_and_set : ℕ → String → User → String → Action vk.Store (Unit {0})
  consume_and_set salt hash u new_password = do
    consumed ← consume_password_reset_token m.db_now hash
    or_raise consumed reset_token_invalid
    set_password salt u new_password

  -- With Argon2's salt, the raw token and the new password.
  unfoldable pub confirm_password_reset : ℕ → String → String → Action vk.Store (Unit {0})
  confirm_password_reset salt token new_password = in_session do
    t ← load_reset_token (hash_password_reset_token l token)
    u ← load_account t new_password
    interleave m.others
    consume_and_set salt (hash_password_reset_token l token) u new_password
