-- ===== src/Users/World.antt =====
-- The state that the modules of accounts work on, their settings, and the libraries that they call.
use customer_portal.Prelude.{ℕ, ◌*◌, String, Bool, Option, List, ◌≡◌, true}
use customer_portal.Session
use customer_portal.Session.{State}
use customer_portal.Users.Models.{Db, UsersError}
pub use customer_portal.Session.{ok, err}
unfoldable pub use customer_portal.Session.{
  pure, raise, or_raise, raise_if, interleave, modify_db, query, commit, in_session, try_send,
  after, attempt, ◌>>=◌, ◌>>◌,
}

-- The messages of app/core/email.py that these services send.
pub data Email : Type 0 where
  verification : String → String → Email
  refresh_reuse_alert : String → Email
  password_reset : String → String → Email
  password_reset_notice : String → Email
  mfa_recovery_used_notice : String → Email
  invitation : String → String → Email

abbrev pub World : Type 0 → Type 0
World Store = State Db Store Email

abbrev pub Result : Type 0 → Type 0
Result A = Session.Result UsersError A

abbrev pub Action : Type 0 → Type 0 → Type 0
Action Store A = Session.Action Db Store Email UsersError A

-- `Settings` of app/core/config.py, as far as these services read it.
pub record Settings : Type 0 where
  pub access_token_ttl_seconds : ℕ
  pub refresh_token_ttl_seconds : ℕ
  pub login_failure_threshold_account : ℕ
  pub login_failure_threshold_ip : ℕ
  pub login_throttle_window_seconds : ℕ
  pub password_reset_token_ttl_minutes : ℕ
  pub password_reset_cooldown_seconds : ℕ
  pub password_reset_account_hourly_limit : ℕ
  pub password_reset_ip_hourly_limit : ℕ
  pub perm_epoch_ttl_seconds : ℕ
  pub mfa_token_ttl_seconds : ℕ
  pub mfa_verify_lockout_threshold : ℕ
  pub mfa_grace_period_days : ℕ
  pub max_live_sessions_per_user : ℕ
  pub verification_token_ttl_hours : ℕ
  pub resend_cooldown_seconds : ℕ
  pub unverified_account_purge_after_days : ℕ
  pub invitation_token_ttl_hours : ℕ
  pub invitation_resend_hourly_limit : ℕ

-- The values that the file gives.
abbrev pub defaults : Settings
defaults = record {
  access_token_ttl_seconds = 900;
  refresh_token_ttl_seconds = 2592000;
  login_failure_threshold_account = 10;
  login_failure_threshold_ip = 20;
  login_throttle_window_seconds = 900;
  password_reset_token_ttl_minutes = 30;
  password_reset_cooldown_seconds = 60;
  password_reset_account_hourly_limit = 5;
  password_reset_ip_hourly_limit = 10;
  perm_epoch_ttl_seconds = 900;
  mfa_token_ttl_seconds = 300;
  mfa_verify_lockout_threshold = 5;
  mfa_grace_period_days = 14;
  max_live_sessions_per_user = 20;
  verification_token_ttl_hours = 24;
  resend_cooldown_seconds = 60;
  unverified_account_purge_after_days = 7;
  invitation_token_ttl_hours = 24;
  invitation_resend_hourly_limit = 5;
}

abbrev pub seconds : ℕ → ℕ
seconds n = n * 1000000

abbrev pub hours : ℕ → ℕ
hours n = seconds (n * 3600)

abbrev pub days : ℕ → ℕ
days n = seconds (n * 86400)

-- The libraries that the services call: text, hashlib's SHA-256, Argon2 with its random salt,
-- HMAC-SHA1, the cipher of app/core/crypto.py, and the list of breached passwords.
pub record Libraries : Type 0 where
  pub lower : String → String
  pub strip : String → String
  pub length : String → ℕ
  pub sha256 : String → String
  pub hash_password : ℕ → String → String
  -- of the attempt, and the stored hash
  pub verify_password : String → String → Bool
  pub hotp : String → ℕ → String
  pub encrypt : ℕ → String → String
  pub decrypt : String → String
  pub is_breached_password : String → Bool
  pub verify-hash_password :
      (salt : ℕ) (password : String) → verify_password password (hash_password salt password) ≡ true
  pub decrypt-encrypt : (nonce : ℕ) (secret : String) → decrypt (encrypt nonce secret) ≡ secret

-- The roles service and the mail server.
pub record Collaborators : Type 0 where
  pub scopes_of : ℕ → List String
  pub role_grants_of : ℕ → List (String × ℕ)
  pub delivers : Email → Bool

-- The clocks that a request reads: `datetime.now(UTC)`, once more after a lost race, and the
-- database's `now()`; and what other sessions commit between its reads and its writes.
pub record Moment : Type 0 where
  pub utc_now : ℕ
  pub utc_again : ℕ
  pub db_now : ℕ
  pub others : Db → Db

-- What a request says of its client.
pub record Client : Type 0 where
  pub ip : String
  pub user_agent : Option String
  pub request_id : String
