-- ===== src/Tests/Resets.antt =====
-- Password resets at concrete inputs.
use customer_portal.Prelude.{ap, ◌∙◌, none, some, [], refl, ◌≡◌, arith, ◌++◌, ◌∷◌}
use customer_portal.Valkey.{
  CacheKey, counter, password_reset_cooldown_key, password_reset_account_hourly_key,
  password_reset_ip_hourly_key,
}
use customer_portal.Users.World.{password_reset, World, ok, defaults, ◌>>=◌, password_reset}
use customer_portal.Users.Cache.{record_attempt}
use customer_portal.Users.PasswordReset.{
  limit_requests, limit_attempts, broken_rules, request_password_reset, confirm_password_reset,
}
use customer_portal.Users.PasswordReset.Confirm.{Confirms, confirm_password_reset-Confirms}
use customer_portal.Users.PasswordReset.Request.{
  request-limit_requests, request_password_reset-Alike,
}
use customer_portal.Users.PasswordReset.RoundTrip.{confirm_password_reset-request_password_reset}
use customer_portal.Tests.Accounts.{accounts, world, libraries, services, moment, client, user}
use customer_portal.Tests.Cache.{valkey, valkey_start, Entries, put, put_ne}

abbrev start : World valkey.Store
start = world valkey_start

confirm_password_reset-Confirms_example :
    Confirms valkey libraries defaults services moment client 1 "reset" "new password" start (
      confirm_password_reset valkey libraries defaults services moment client 1 "reset"
        "new password" start)
confirm_password_reset-Confirms_example =
    confirm_password_reset-Confirms valkey libraries defaults services moment client 1 "reset"
      "new password" start

abbrev after_reset : World valkey.Store
after_reset =
    (confirm_password_reset valkey libraries defaults services moment client 1 "reset"
      "new password" start).1

-- No account is there.
abbrev empty : World valkey.Store
empty = record start { committed = record accounts { users = [] } }

request_password_reset-Alike_example :
    (request_password_reset valkey libraries defaults services moment client "raw"
      "user@example.org" start).0
    ≡ (request_password_reset valkey libraries defaults services moment client "raw"
        "user@example.org" empty).0
request_password_reset-Alike_example =
    request_password_reset-Alike valkey libraries defaults services moment client "raw"
      "user@example.org" start empty refl

abbrev requested : World valkey.Store
requested =
    (request_password_reset valkey libraries defaults services moment client "raw"
      "user@example.org" start).1

abbrev cooldown_key : CacheKey
cooldown_key = password_reset_cooldown_key "user@example.org"

abbrev account_key : CacheKey
account_key = password_reset_account_hourly_key "user@example.org"

abbrev ip_key : CacheKey
ip_key = password_reset_ip_hourly_key "::1"

abbrev first : Entries
first = put cooldown_key (some (counter 1)) valkey_start

abbrev second : Entries
second = put account_key (some (counter 1)) first

account_fresh : first account_key ≡ none
account_fresh = put_ne account_key cooldown_key (some (counter 1)) valkey_start (λ h. ground arith)

ip_fresh : second ip_key ≡ none
ip_fresh =
    put_ne ip_key account_key (some (counter 1)) first (λ h. ground arith)
    ∙ put_ne ip_key cooldown_key (some (counter 1)) valkey_start (λ h. ground arith)

below_limits :
    (limit_requests valkey libraries defaults services moment client "user@example.org" start).0
    ≡ ok tt
unfolding limit_requests limit_attempts record_attempt ◌>>=◌
below_limits = rw account_fresh (rw ip_fresh refl)

request_done :
    request_password_reset valkey libraries defaults services moment client "raw" "user@example.org"
      start
    ≡ (ok tt, requested)
request_done =
    ap (λ x. (x, requested))
      (request-limit_requests valkey libraries defaults services moment client "raw"
          "user@example.org" start
        ∙ below_limits)

good_password : broken_rules libraries user "new password" ≡ []
unfolding broken_rules
good_password = refl

confirm_password_reset-request_password_reset_example :
    (requested.outbox ≡ start.outbox ++ password_reset "user@example.org" "raw" ∷ [])
    × ((confirm_password_reset valkey libraries defaults services moment client 1 "raw"
          "new password" requested).0
        ≡ ok tt)
confirm_password_reset-request_password_reset_example =
    confirm_password_reset-request_password_reset valkey libraries defaults services moment moment
      client client 1 "raw" "user@example.org" "new password" start requested user refl refl refl
      refl request_done (ground arith) good_password refl
