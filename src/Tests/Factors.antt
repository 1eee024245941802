-- ===== src/Tests/Factors.antt =====
-- Logins and second factors at concrete inputs.
use customer_portal.Prelude.{find_row, ◌==◌, none, some, refl, ◌≡◌, ◌≤◌, ℕ, true, arith, String}
use customer_portal.Valkey.{mfa_token_key, uuid}
use customer_portal.Users.Models.{User}
use customer_portal.Users.World.{World, ok, defaults, ◌>>=◌}
use customer_portal.Users.Repository.{family_created_at, add_family}
use customer_portal.Users.Cache.{get_ip_failure_count, get_account_failure_count}
use customer_portal.Users.Refresh.{TokenResponse, token_response}
use customer_portal.Users.Login.{authenticate_user, open_session, limit_ip, limit_account}
use customer_portal.Users.Login.Admission.{Answers, authenticate_user-Answers}
use customer_portal.Users.Login.Refusal.{by_email, Refused, authenticate_user-Refused}
use customer_portal.Users.Login.Cap.{live_count, open_session-capped}
use customer_portal.Users.Mfa.{enroll_mfa, match_totp, verify_totp_code, verify_mfa}
use customer_portal.Users.Mfa.Enrolment.{enroll_mfa-replaces}
use customer_portal.Users.Mfa.Once.{VerifiesUser, verify_mfa-VerifiesUser}
use customer_portal.Tests.Accounts.{
  mfa_user, accounts, world, libraries, services, moment, client, new,
}
use customer_portal.Tests.Cache.{valkey, valkey_start, put}

abbrev start : World valkey.Store
start = world valkey_start

-- The second account has passed the first step.
abbrev pending : World valkey.Store
pending = world (put (mfa_token_key "mfa") (some (uuid 8)) valkey_start)

authenticate_user-Answers_example :
    Answers valkey libraries defaults services moment client "password"
      (by_email libraries "user@example.org" accounts)
      accounts
      (authenticate_user valkey libraries defaults services moment client "mfa" new
        "user@example.org" "password" start).0
authenticate_user-Answers_example =
    authenticate_user-Answers valkey libraries defaults services moment client "mfa" new
      "user@example.org" "password" start

ip_allowed : (limit_ip valkey libraries defaults services moment client start).0 ≡ ok tt
unfolding limit_ip get_ip_failure_count ◌>>=◌
ip_allowed = refl

account_allowed :
    (limit_account valkey libraries defaults services moment client
      (by_email libraries "user@example.org" accounts)
      start).0
    ≡ ok tt
unfolding limit_account get_account_failure_count ◌>>=◌
account_allowed = refl

authenticate_user-Refused_example :
    Refused valkey libraries defaults services moment client accounts (
      authenticate_user valkey libraries defaults services moment client "mfa" new
        "user@example.org" "guess" start)
authenticate_user-Refused_example =
    authenticate_user-Refused valkey libraries defaults services moment client "mfa" new
      "user@example.org" "guess" start ip_allowed account_allowed refl

few : live_count valkey libraries defaults moment client 7 accounts ≤ 20
unfolding family_created_at add_family
few = ground arith

open_session-capped_example :
    live_count valkey libraries defaults moment client 7
      (open_session valkey libraries defaults moment client none new 7 start).1.committed
    ≤ 20
open_session-capped_example =
    open_session-capped valkey libraries defaults moment client none new 7 start (ground arith) few

verify_mfa-VerifiesUser_example :
    VerifiesUser valkey libraries defaults services moment client "mfa" "123456" pending
      (verify_mfa valkey libraries defaults services moment client new "mfa" "123456" pending)
verify_mfa-VerifiesUser_example =
    verify_mfa-VerifiesUser valkey libraries defaults services moment client new "mfa" "123456"
      pending

abbrev verified : World valkey.Store
verified =
    (verify_mfa valkey libraries defaults services moment client new "mfa" "recovery" pending).1

-- A recovery code opens a session that is limited to enrolment.
abbrev answer : TokenResponse
answer =
    record (token_response defaults services 100
      (record mfa_user { mfa_reenrollment_required = true }) 2 "new") {
        mfa_enrollment_deadline = none;
      }

-- The second factor of this account is on.
enroll_mfa-replaces_example :
    (find_row
        (λ (v : User). v.id == 8)
        (enroll_mfa valkey libraries defaults services moment client "654321" 1 8 "password"
          start).1.committed.users
      ≡ some (record mfa_user { mfa_secret_encrypted = some "654321" }))
    × ((at_ : ℕ) (code : String)
        → match_totp libraries at_ code (some "654321")
          ≡ verify_totp_code libraries at_ "654321" code)
enroll_mfa-replaces_example =
    enroll_mfa-replaces valkey libraries defaults services moment client "654321" 1 8 "password"
      start mfa_user refl refl
