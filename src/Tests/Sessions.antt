-- ===== src/Tests/Sessions.antt =====
-- Refresh requests, authentication and logout at concrete inputs.
use customer_portal.Session.{in_session}
use mathlib.Core.Bool.{false≢true}
use text.Mathlib.TextEquality.{eq_iff}
use customer_portal.Prelude.{
  none, some, [], ◌∷◌, refl, ◌≡◌, ◌≤◌, false, arith, String, Option, find_row, ◌==◌, List, ◌≢◌,
}
use customer_portal.Users.Models.{User, deactivated as gone, unauthenticated}
use customer_portal.Users.World.{World, ok, ◌>>=◌, err, defaults}
use customer_portal.Users.Cache.{get_revoke_before, get_perm_epoch, set_revoke_before}
use customer_portal.Account.{
  reactivate_account, deactivate_account, deactivate_if_not_already, create_audit_log_entry,
}
use customer_portal.Users.Repository.{get_by_id}
use customer_portal.Account.Grace.{Returns, reactivate_account-deactivate_account}
use customer_portal.Users.Refresh.{AccessTokenClaims, rotate_refresh_token}
use customer_portal.Users.Refresh.Rotation.{Rotates, rotate_refresh_token-Rotates}
use customer_portal.Users.Refresh.Phases.{Attempt, begin_rotation, then_finish}
use customer_portal.Users.Refresh.Schedules.{Event, begins, finishes, exchanges}
use customer_portal.Users.Refresh.Once.{exchanges-le-one}
use customer_portal.Users.Sessions.{
  Payload, get_authenticated_user, decode_access_token, authenticate, logout, revoke_session,
}
use customer_portal.Users.Sessions.Authentication.{
  Authenticates, get_authenticated_user-Authenticates,
}
use customer_portal.Users.Sessions.Revocation.{Revokes, revoke_session-Revokes}
use customer_portal.Users.Sessions.Ended.{IsErr, logout-ends}
use customer_portal.Tests.Accounts.{user, world, libraries, services, moment, client, new, payload}
use customer_portal.Tests.Cache.{valkey, valkey_start}

abbrev start : World valkey.Store
start = world valkey_start

abbrev jwt_decode : String → Option Payload
jwt_decode token = some payload

abbrev claims : AccessTokenClaims
claims = record { user_id = 7; jti = 1; exp = 1000; scopes = []; mfa_enrollment_required = false }

rotate_refresh_token-Rotates_example :
    Rotates valkey libraries defaults services moment client new "token" start.committed (
      rotate_refresh_token valkey libraries defaults services moment client new
        (some "token")
        start)
rotate_refresh_token-Rotates_example =
    rotate_refresh_token-Rotates valkey libraries defaults services moment client new "token" start

abbrev request : Attempt
request = record { moment = moment; client = client; new = new }

new_differs : ◌≢◌ {A = String} "new" "token"
new_differs h = false≢true ((eq_iff "new" "token").1 h)

-- Two requests read the token before either writes.
abbrev race : List Event
race = begins request ∷ begins request ∷ finishes 0 ∷ finishes 0 ∷ []

exchanges-le-one_example :
    (exchanges valkey libraries defaults services "token" race start ≤ 1)
    × (rotate_refresh_token valkey libraries defaults services moment client new
          (some "token")
          start
        ≡ in_session
            (begin_rotation valkey libraries defaults services "token" request
              >>= then_finish valkey libraries defaults services "token" request)
            start)
exchanges-le-one_example =
    exchanges-le-one valkey libraries defaults services "token" race request start
      (new_differs, (new_differs, (tt, (tt, tt))))

get_authenticated_user-Authenticates_example :
    Authenticates
      (get_revoke_before valkey)
      (get_perm_epoch valkey)
      jwt_decode
      false
      false
      (decode_access_token jwt_decode "jwt")
      start
      (get_authenticated_user
        (get_revoke_before valkey)
        (get_perm_epoch valkey)
        jwt_decode
        false
        false
        "jwt"
        start).0
get_authenticated_user-Authenticates_example =
    get_authenticated_user-Authenticates (get_revoke_before valkey) (get_perm_epoch valkey)
      jwt_decode false false "jwt" start

decode_start : decode_access_token jwt_decode "jwt" ≡ some claims
unfolding decode_access_token
decode_start = refl

logout-ends_example :
    ((authenticate valkey jwt_decode false false "jwt"
        (logout valkey libraries defaults moment client 1 7 (some "token") start).1).0
      ≡ err unauthenticated)
    × IsErr
        (rotate_refresh_token valkey libraries defaults services moment client new
          (some "token")
          (logout valkey libraries defaults moment client 1 7 (some "token") start).1).0
logout-ends_example =
    logout-ends valkey libraries defaults services moment client 1 7 "token" start jwt_decode false
      "jwt" claims moment client new refl decode_start refl

revoke_session-Revokes_example :
    Revokes valkey libraries defaults moment client 7 3 none start.committed
      (revoke_session valkey libraries defaults moment client 7 3 none start)
revoke_session-Revokes_example =
    revoke_session-Revokes valkey libraries defaults moment client 7 3 none start

abbrev deactivated : World valkey.Store
deactivated = (deactivate_account valkey libraries defaults moment 7 (some "password") start).1

deactivation_done :
    deactivate_account valkey libraries defaults moment 7 (some "password") start
    ≡ (ok (some 101), deactivated)
unfolding deactivate_account ◌>>=◌ get_by_id deactivate_if_not_already create_audit_log_entry
    set_revoke_before
deactivation_done = refl

reactivate_account-deactivate_account_example :
    (find_row (λ (u : User). u.id == 7) deactivated.committed.users
      ≡ some (record user { status = gone; deactivated_at = some 101 }))
    × Returns valkey libraries defaults 7 user deactivated.committed
        (reactivate_account moment 7 (record deactivated { db = deactivated.committed }))
reactivate_account-deactivate_account_example =
    reactivate_account-deactivate_account valkey libraries defaults moment moment 7
      (some "password") (some 101) user start deactivated deactivation_done refl refl refl
      (ground arith)
