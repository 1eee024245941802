-- ===== src/Users/Refresh.antt =====
-- `rotate_refresh_token` and `_handle_reuse_or_race` of app/modules/users/service.py, with the access
-- token that login and refresh issue.
pub mod Loading
pub mod Rotation
pub mod Phases
pub mod Spent
pub mod Schedules
pub mod Once
use text.Mathlib.Text.{◌==◌ as str_eq}
use customer_portal.Prelude.{
  ℕ, ◌+◌, String, Bool, true, false, not, ◌&&◌, ◌||◌, Option, none, some, List, [], ◌∷◌, is_some,
  ltb, leb, if◌then◌else◌,
}
use customer_portal.Valkey.{Valkey}
use customer_portal.Users.Models.{
  User, UserStatus, deactivated, RefreshToken, token_invalid, too_many_attempts,
}
use customer_portal.Users.World.{
  Action, Settings, Libraries, Collaborators, Moment, Client, refresh_reuse_alert, seconds, days,
  ◌>>=◌, ◌>>◌, pure, raise, or_raise, raise_if, interleave, commit, in_session, try_send,
}
use customer_portal.Users.Repository.{
  entry, get_by_id, get_refresh_token_by_hash, revoke_refresh_token_family, consume_refresh_token,
  create_refresh_token, create_session, create_auth_audit_log_entry,
}
use customer_portal.Users.Cache.{record_request, refresh_retry_after, get_revoke_before}

abbrev pub refresh_idle_timeout : ℕ
refresh_idle_timeout = days 14

abbrev pub refresh_concurrent_grace_window : ℕ
refresh_concurrent_grace_window = seconds 10

abbrev pub refresh_rate_limit_max_requests : ℕ
refresh_rate_limit_max_requests = 60

abbrev pub refresh_rate_limit_window_seconds : ℕ
refresh_rate_limit_window_seconds = 3600

-- `AccessTokenClaims` of app/core/security.py, of the token that `encode_access_token` signs.
pub record AccessTokenClaims : Type 0 where
  pub user_id : ℕ
  pub jti : ℕ
  pub exp : ℕ
  pub scopes : List String
  pub mfa_enrollment_required : Bool

-- `LoginResponse`, `RefreshResponse` and `MfaVerifyResponse`, with the raw refresh token of the cookie.
pub record TokenResponse : Type 0 where
  pub access_token : AccessTokenClaims
  pub expires_in : ℕ
  pub mfa_enrollment_deadline : Option ℕ
  pub raw_refresh_token : String

-- What a request draws at random.
pub record Minted : Type 0 where
  pub raw_token : String
  pub jti : ℕ
  pub family_id : ℕ

-- `_PRIVILEGED_ROLE_NAMES`
abbrev pub is_privileged : String → Bool
is_privileged name = str_eq name "admin" || str_eq name "auditor" || str_eq name "support_agent"

abbrev pub is_deactivated : UserStatus → Bool
is_deactivated deactivated = true
is_deactivated _ = false

-- `min(deadlines)` over the privileged grants, None if there are none.
unfoldable pub earliest_deadline : ℕ → List (String × ℕ) → Option ℕ
earliest_deadline grace [] = none
earliest_deadline grace ((name, granted) ∷ grants) =
    let rest = earliest_deadline grace grants in
    if is_privileged name
    then elim rest [
      | none ↦ some (granted + grace)
      | some d ↦ some (if leb (granted + grace) d then granted + grace else d)
    ]
    else rest

-- `_resolve_enrollment_scoping`
unfoldable pub resolve_enrollment_scoping : Settings → Collaborators → ℕ → User → Bool × Option ℕ
unfolding earliest_deadline
resolve_enrollment_scoping s c now u =
    if u.mfa_reenrollment_required
    then (true, none)
    else if u.mfa_enabled
    then (false, none)
    else elim (earliest_deadline (days s.mfa_grace_period_days) (c.role_grants_of u.id)) [
      | none ↦ (false, none)
      | some d ↦ if leb d now then (true, none) else (false, some d)
    ]

-- `_encode_access_token_for_user`, and the response around it.
unfoldable pub token_response : Settings → Collaborators → ℕ → User → ℕ → String → TokenResponse
unfolding resolve_enrollment_scoping
token_response s c now u jti raw = record {
  access_token = record {
    user_id = u.id;
    jti = jti;
    exp = now + seconds s.access_token_ttl_seconds;
    scopes = c.scopes_of u.id;
    mfa_enrollment_required = (resolve_enrollment_scoping s c now u).0;
  };
  expires_in = s.access_token_ttl_seconds;
  mfa_enrollment_deadline = (resolve_enrollment_scoping s c now u).1;
  raw_refresh_token = raw;
}

-- consumed_at is not None and now - consumed_at <= _REFRESH_CONCURRENT_GRACE_WINDOW
abbrev pub in_grace : ℕ → RefreshToken → Bool
in_grace now t = elim t.consumed_at [
  | none ↦ false
  | some at_ ↦ leb now (at_ + refresh_concurrent_grace_window)
]

-- now - (last_used_at or issued_at) > _REFRESH_IDLE_TIMEOUT
abbrev pub is_idle : ℕ → RefreshToken → Bool
is_idle now t =
    ltb (elim t.last_used_at [ none ↦ t.issued_at | some u ↦ u ] + refresh_idle_timeout) now

-- revoke_before is not None and issued_at <= revoke_before
abbrev pub issued_before : Option ℕ → ℕ → Bool
issued_before none issued = false
issued_before (some r) issued = leb issued r

-- The token that replaces a consumed one: of the same family, and expiring with it.
abbrev pub successor : Moment → Client → String → RefreshToken → RefreshToken
successor m client hash t = record {
  token_hash = hash;
  family_id = t.family_id;
  user_id = t.user_id;
  issued_at = m.db_now;
  expires_at = t.expires_at;
  revoked_at = none;
  consumed_at = none;
  last_used_at = some m.utc_now;
  ip = some client.ip;
  user_agent = client.user_agent;
}

module _ (vk : Valkey) (l : Libraries) (s : Settings) (c : Collaborators) (m : Moment)
    (client : Client) where
  -- Best effort, after the commit.
  unfoldable pub alert_reuse : Option User → Action vk.Store (Unit {0})
  alert_reuse none = pure tt
  alert_reuse (some u) =
      try_send (c.delivers (refresh_reuse_alert u.email)) (refresh_reuse_alert u.email)

  -- The end of `_handle_reuse_or_race`: the token was reused.
  unfoldable pub handle_reuse : RefreshToken → Action vk.Store (Unit {0})
  handle_reuse t = do
    revoke_refresh_token_family m.db_now t.family_id
    create_auth_audit_log_entry
        (record (entry "refresh_reuse_detected" (some t.user_id) client) { severity = some "high" })
    commit
    user ← get_by_id t.user_id
    alert_reuse user

  unfoldable pub handle_reuse_or_race : ℕ → RefreshToken → Action vk.Store (Unit {0})
  handle_reuse_or_race now t = if in_grace now t then pure tt else handle_reuse t

  unfoldable pub limit_refresh : ℕ → Action vk.Store (Unit {0})
  limit_refresh family = do
    count ← record_request vk family refresh_rate_limit_window_seconds
    if ltb refresh_rate_limit_max_requests count
        then (do retry_after ← refresh_retry_after vk family; raise (too_many_attempts retry_after))
        else pure tt

  -- The token was consumed already when it was read.
  unfoldable pub reject_consumed : RefreshToken → Action vk.Store TokenResponse
  reject_consumed t = do handle_reuse_or_race m.utc_now t; raise token_invalid

  -- Another request consumed it since: it is read again.
  unfoldable pub handle_raced : Option RefreshToken → Action vk.Store (Unit {0})
  handle_raced none = pure tt
  handle_raced (some t) = handle_reuse_or_race m.utc_again t

  unfoldable pub lose_race : String → Action vk.Store TokenResponse
  lose_race hash = do
    raced ← get_refresh_token_by_hash hash
    handle_raced raced
    raise token_invalid

  -- The rows of the new token and of its session.
  unfoldable pub mint : Minted → User → RefreshToken → Action vk.Store TokenResponse
  mint new user consumed = do
    create_refresh_token (successor m client (l.sha256 new.raw_token) consumed)
    create_session m.db_now consumed.user_id new.jti
        (m.utc_now + seconds s.access_token_ttl_seconds)
    commit
    pure (token_response s c m.utc_now user new.jti new.raw_token)

  unfoldable pub mint_or_lose :
      Minted → String → User → Option RefreshToken → Action vk.Store TokenResponse
  mint_or_lose new hash user none = lose_race hash
  mint_or_lose new hash user (some consumed) = mint new user consumed

  -- The checks of a token that was not consumed when it was read.
  unfoldable pub load_eligible : RefreshToken → Action vk.Store User
  load_eligible existing = do
    found ← get_by_id existing.user_id
    user ← or_raise found token_invalid
    raise_if (is_deactivated user.status) token_invalid
    revoke_before ← get_revoke_before vk existing.user_id
    raise_if (issued_before revoke_before existing.issued_at) token_invalid
    raise_if (is_idle m.utc_now existing) token_invalid
    pure user

  unfoldable pub rotate_unconsumed : Minted → String → RefreshToken → Action vk.Store TokenResponse
  rotate_unconsumed new hash existing = do
    user ← load_eligible existing
    interleave m.others
    consumed ← consume_refresh_token m.db_now hash
    mint_or_lose new hash user consumed

  -- The checks of the row itself, before that for reuse.
  unfoldable pub load_token : String → Action vk.Store RefreshToken
  load_token hash = do
    found ← get_refresh_token_by_hash hash
    existing ← or_raise found token_invalid
    limit_refresh existing.family_id
    raise_if (leb existing.expires_at m.utc_now) token_invalid
    raise_if (is_some existing.revoked_at) token_invalid
    pure existing

  unfoldable pub rotate_refresh_token : Minted → Option String → Action vk.Store TokenResponse
  rotate_refresh_token new raw_token = in_session do
    raw ← or_raise raw_token token_invalid
    existing ← load_token (l.sha256 raw)
    if is_some existing.consumed_at
        then reject_consumed existing
        else rotate_unconsumed new (l.sha256 raw) existing
