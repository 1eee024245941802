-- ===== src/Users/Cache.antt =====
-- app/modules/users/cache.py and app/core/revocation_cache.py, over a cache server that answers.
use customer_portal.Prelude.{ℕ, String, Bool, Option, none, some}
use customer_portal.Valkey.{
  Valkey, CacheKey, CacheValue, counter, instant, uuid, login_fail_account_key, login_fail_ip_key,
  refresh_rate_limit_key, mfa_token_key, mfa_verify_attempts_key, mfa_used_step_key,
  revoke_before_key, perm_epoch_key,
}
use customer_portal.Counter.{incr_with_ttl, get_count, get_ttl}
use customer_portal.Users.Models.{server_error}
use customer_portal.Users.World.{Action, Result, ok, err}

-- `datetime.fromisoformat(raw)`; another text is a ValueError.
abbrev pub read_instant : Option CacheValue → Result (Option ℕ)
read_instant none = ok none
read_instant (some (instant t)) = ok (some t)
read_instant (some _) = err server_error

-- `_parse_user_id`
abbrev pub parse_user_id : Option CacheValue → Result (Option ℕ)
parse_user_id none = ok none
parse_user_id (some (uuid id)) = ok (some id)
parse_user_id (some _) = err server_error

module _ (vk : Valkey) where
  open vk use {Store, get, set_ex, set_nx_ex, delete}

  -- `LoginThrottleCache`
  unfoldable pub record_account_failure : ℕ → ℕ → Action Store ℕ
  unfolding incr_with_ttl
  record_account_failure user window = incr_with_ttl vk (login_fail_account_key user) window

  unfoldable pub record_ip_failure : String → ℕ → Action Store ℕ
  unfolding incr_with_ttl
  record_ip_failure ip window = incr_with_ttl vk (login_fail_ip_key ip) window

  unfoldable pub get_account_failure_count : ℕ → Action Store ℕ
  unfolding get_count
  get_account_failure_count user = get_count vk server_error (login_fail_account_key user)

  unfoldable pub get_ip_failure_count : String → Action Store ℕ
  unfolding get_count
  get_ip_failure_count ip = get_count vk server_error (login_fail_ip_key ip)

  unfoldable pub get_account_retry_after : ℕ → Action Store ℕ
  unfolding get_ttl
  get_account_retry_after user = get_ttl vk (login_fail_account_key user)

  unfoldable pub get_ip_retry_after : String → Action Store ℕ
  unfolding get_ttl
  get_ip_retry_after ip = get_ttl vk (login_fail_ip_key ip)

  unfoldable pub reset_account_failures : ℕ → Action Store (Unit {0})
  reset_account_failures user w =
      (ok tt, record w { store = delete (login_fail_account_key user) w.store })

  -- `RefreshRateLimitCache`
  unfoldable pub record_request : ℕ → ℕ → Action Store ℕ
  unfolding incr_with_ttl
  record_request family window = incr_with_ttl vk (refresh_rate_limit_key family) window

  unfoldable pub refresh_retry_after : ℕ → Action Store ℕ
  unfolding get_ttl
  refresh_retry_after family = get_ttl vk (refresh_rate_limit_key family)

  -- `PasswordResetRateLimitCache`: the limit's key is the first argument.
  unfoldable pub record_attempt : CacheKey → ℕ → Action Store ℕ
  unfolding incr_with_ttl
  record_attempt key window = incr_with_ttl vk key window

  unfoldable pub attempt_retry_after : CacheKey → Action Store ℕ
  unfolding get_ttl
  attempt_retry_after key = get_ttl vk key

  -- `MfaTokenCache`
  unfoldable pub issue : String → ℕ → ℕ → Action Store (Unit {0})
  issue hash user ttl w =
      (ok tt, record w { store = set_ex (mfa_token_key hash) (uuid user) ttl w.store })

  unfoldable pub get_user_id : String → Action Store (Option ℕ)
  get_user_id hash w = (parse_user_id (get (mfa_token_key hash) w.store), w)

  -- GETDEL
  unfoldable pub consume : String → Action Store (Option ℕ)
  consume hash w = (
    parse_user_id (get (mfa_token_key hash) w.store),
    record w { store = delete (mfa_token_key hash) w.store },
  )

  unfoldable pub record_failed_attempt : String → ℕ → Action Store ℕ
  unfolding incr_with_ttl
  record_failed_attempt hash window = incr_with_ttl vk (mfa_verify_attempts_key hash) window

  unfoldable pub invalidate : String → Action Store (Unit {0})
  invalidate hash w = (
    ok tt,
    record w {
      store = delete (mfa_verify_attempts_key hash) (delete (mfa_token_key hash) w.store);
    },
  )

  -- `MfaReplayCache`: whether the step was not marked before
  unfoldable pub mark_step_used : ℕ → ℕ → ℕ → Action Store Bool
  mark_step_used user step ttl w =
      let (set, s) = set_nx_ex (mfa_used_step_key user step) (counter 1) ttl w.store in
      (ok set, record w { store = s })

  -- `RevocationCache`
  unfoldable pub set_revoke_before : ℕ → ℕ → ℕ → Action Store (Unit {0})
  set_revoke_before now user ttl w =
      (ok tt, record w { store = set_ex (revoke_before_key user) (instant now) ttl w.store })

  unfoldable pub get_revoke_before : ℕ → Action Store (Option ℕ)
  get_revoke_before user w = (read_instant (get (revoke_before_key user) w.store), w)

  -- `PermissionEpochCache`
  unfoldable pub set_perm_epoch : ℕ → ℕ → ℕ → Action Store (Unit {0})
  set_perm_epoch now user ttl w =
      (ok tt, record w { store = set_ex (perm_epoch_key user) (instant now) ttl w.store })

  unfoldable pub get_perm_epoch : ℕ → Action Store (Option ℕ)
  get_perm_epoch user w = (read_instant (get (perm_epoch_key user) w.store), w)
