-- ===== src/Tests/Verification.antt =====
-- Email verification at concrete inputs.
use customer_portal.Users.Registration.Outcome.{Registers, register_user-Registers}
use customer_portal.Users.Registration.{Characters, register_user}
use customer_portal.Prelude.{
  false, ◌≡◌, ◌≢◌, refl, inl, inr, ap, some, [], arith, Member, leb, ◌&&◌, ◌++◌, ◌∷◌,
}
use customer_portal.Users.Models.{User}
use customer_portal.Users.World.{World, ok, defaults, ◌>>=◌, verification}
use customer_portal.AdminUsers.{send, deactivate_user}
use customer_portal.AdminUsers.Payloads.{UserRead, to_user_read}
use customer_portal.EmailVerification.{
  Issue, verify_email, load_token, resend_verification, resend_to, issue_token,
  check_resend_cooldown, purge_unverified_accounts,
}
use customer_portal.EmailVerification.Repository.{
  get_token_by_hash, consume_token, mark_user_verified, get_user_by_email,
  get_latest_token_for_user, create_token,
}
use customer_portal.Users.Repository.{get_by_email}
use customer_portal.EmailVerification.Verified.{Verifies, verified, verify_email-Verifies}
use customer_portal.EmailVerification.Once.{deactivate_user-verify_email}
use customer_portal.EmailVerification.RoundTrip.{issued, verify_email-resend_verification}
use customer_portal.EmailVerification.Purge.{Purges, purge_unverified_accounts-Purges}
use customer_portal.Tests.Accounts.{libraries, services, moment}
use customer_portal.Tests.Cache.{valkey, valkey_start}
use customer_portal.Tests.Directory.{directory, portal, texts, admin, new_user, later, weeks_later}

abbrev start : World valkey.Store
start = portal valkey_start

verify_email-Verifies_example :
    Verifies valkey libraries services defaults moment "link" start
      (verify_email valkey libraries services defaults moment (some "link") start)
verify_email-Verifies_example =
    verify_email-Verifies valkey libraries services defaults moment (some "link") start

abbrev after_link : World valkey.Store
after_link = (verify_email valkey libraries services defaults moment (some "link") start).1

linked :
    verify_email valkey libraries services defaults moment (some "link") start ≡ (ok tt, after_link)
unfolding verify_email load_token get_token_by_hash consume_token mark_user_verified ◌>>=◌
linked = refl

only_new_user : (v : User) → Member v directory.users → v.id ≡ 9 → v ≡ new_user
only_new_user v (inl e) h = absurd (ground (arith, ap (λ (y : User). y.id) e, h))
only_new_user v (inr (inl e)) h = absurd (ground (arith, ap (λ (y : User). y.id) e, h))
only_new_user v (inr (inr (inl e))) h = e
only_new_user v (inr (inr (inr m))) h = absurd m

abbrev answer : UserRead
answer = to_user_read new_user []

deactivate_user-verify_email_example :
    (deactivate_user valkey libraries texts services defaults moment admin 9 "left" after_link).0
    ≢ ok answer
deactivate_user-verify_email_example =
    deactivate_user-verify_email valkey libraries services defaults texts moment moment
      (some "link") admin new_user "left" start after_link answer linked (inr (inr (inl refl))) refl
      only_new_user refl

abbrev new : Issue
new = record { token_id = 2; raw_token = "again" }

abbrev after_resend : World valkey.Store
after_resend =
    (resend_verification valkey libraries services defaults later new (some "new@example.org")
      start).1

resent :
    resend_verification valkey libraries services defaults later new (some "new@example.org") start
    ≡ (ok tt, after_resend)
unfolding resend_verification resend_to get_user_by_email get_by_email get_latest_token_for_user
    check_resend_cooldown issue_token create_token send ◌>>=◌
resent = refl

verify_email-resend_verification_example :
    (after_resend.outbox ≡ start.outbox ++ verification "new@example.org" "again" ∷ [])
    × ((verify_email valkey libraries services defaults later (some "again") after_resend).0
        ≡ ok tt)
    × ((verify_email valkey libraries services defaults later
          (some "again")
          after_resend).1.committed
        ≡ verified valkey libraries services defaults later
            (issued valkey libraries services defaults later new 9)
            after_resend.committed)
verify_email-resend_verification_example =
    verify_email-resend_verification valkey libraries services defaults later later new
      (some "new@example.org") new_user start after_resend resent refl refl refl refl (omega arith)
      refl

purge_unverified_accounts-Purges_example :
    Purges valkey libraries services defaults weeks_later
      (λ id. false)
      start
      (purge_unverified_accounts valkey libraries services defaults weeks_later (λ id. false) start)
purge_unverified_accounts-Purges_example =
    purge_unverified_accounts-Purges valkey libraries services defaults weeks_later (λ id. false)
      start

-- The classes of ASCII.
abbrev characters : Characters
characters = record {
  is_upper = λ n. leb 65 n && leb n 90;
  is_lower = λ n. leb 97 n && leb n 122;
  is_digit = λ n. leb 48 n && leb n 57;
  validate_email = λ e. some e;
}

register_user-Registers_example :
    Registers valkey libraries characters services defaults moment new 11 "third@example.org"
      "Passw0rd!" start
      (register_user valkey libraries characters services defaults moment new 11 1
        (some "third@example.org")
        (some "Passw0rd!")
        start)
register_user-Registers_example =
    register_user-Registers valkey libraries characters services defaults moment new 11 1
      (some "third@example.org") (some "Passw0rd!") start
