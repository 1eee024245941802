-- ===== src/Users/Login/Refusal.antt =====
-- What a login with wrong credentials tells.
use text.Mathlib.Text.{◌==◌ as str_eq}
use customer_portal.Prelude.{
  ℕ, String, false, ◌≡◌, refl, Option, none, some, [], ◌∷◌, ◌++◌, arith, find_row,
}
use customer_portal.Valkey.{Valkey}
use customer_portal.Users.Models.{Db, User, invalid_credentials}
use customer_portal.Users.World.{
  World, Result, ok, err, Settings, Libraries, Collaborators, Moment, Client, ◌>>=◌,
}
use customer_portal.Users.Repository.{entry, get_by_email, create_auth_audit_log_entry}
use customer_portal.Users.Cache.{
  record_ip_failure, record_account_failure, get_ip_failure_count, get_ip_retry_after,
  get_account_failure_count, get_account_retry_after,
}
use customer_portal.Users.Refresh.{Minted}
use customer_portal.Users.Login.{
  LoginAnswer, limit_ip, limit_account, audit_failure, reject_unknown, reject_password,
  check_credentials, authenticate_user,
}

-- SELECT … WHERE lower(email) = lower(…)
abbrev pub by_email : Libraries → String → Db → Option User
by_email l email d = find_row (λ (u : User). str_eq (l.lower u.email) (l.lower email)) d.users

module _ (vk : Valkey) (l : Libraries) (s : Settings) (c : Collaborators) (m : Moment)
    (client : Client) where
  -- There is no account, or the password is not its.
  abbrev pub Wrong : String → Option User → Type 0
  Wrong password none = Unit
  Wrong password (some u) = l.verify_password password u.hashed_password ≡ false

  -- A read of the counters changes nothing.
  abbrev Reads : World vk.Store → Result (Unit {0}) × World vk.Store → Type 0
  Reads w (x, w') = w' ≡ w

  pub limit_ip-Reads : (w : World vk.Store) → Reads w (limit_ip vk l s c m client w)
  unfolding limit_ip get_ip_failure_count get_ip_retry_after ◌>>=◌
  limit_ip-Reads w = ground arith

  pub limit_account-Reads :
      (found : Option User) (w : World vk.Store) → Reads w (limit_account vk l s c m client found w)
  unfolding limit_account get_account_failure_count get_account_retry_after ◌>>=◌
  limit_account-Reads none w = refl
  limit_account-Reads (some u) w = ground arith

  -- What the failure of a login commits.
  abbrev failed : String → Option ℕ → Db → Db
  failed reason actor d = record d {
    audit = d.audit ++ record (entry "login_failed" actor client) { reason = some reason } ∷ [];
  }

  abbrev pub Refused : Db → Result LoginAnswer × World vk.Store → Type 0
  Refused d (x, w') =
      (x ≡ err invalid_credentials)
      × ((reason : String) × (actor : Option ℕ) × (w'.committed ≡ failed reason actor d))

  check_credentials-Refused :
      (raw : String) (new : Minted) (password : String) (found : Option User) (w : World vk.Store)
      → Wrong password found
      → Refused w.db (check_credentials vk l s c m client raw new password found w)
  unfolding check_credentials reject_unknown reject_password audit_failure record_ip_failure
      record_account_failure create_auth_audit_log_entry ◌>>=◌
  check_credentials-Refused raw new password none w h = (refl, ("unknown_email", none, refl))
  check_credentials-Refused raw new password (some u) w h =
      rw h (refl, ("bad_password", some u.id, refl))

  limited-Refused :
      (raw : String) (new : Minted) (password : String) (found : Option User)
      (w0 w : World vk.Store) (x : Result (Unit {0}))
      → (limit_account vk l s c m client found w).0 ≡ ok tt
      → w ≡ w0
      → Wrong password found
      → Refused w0.db (
          (limit_account vk l s c m client found >>= λ _.
          check_credentials vk l s c m client raw new password found)
            w)
  unfolding ◌>>=◌
  limited-Refused raw new password found w0 w x allowed same wrong = rw allowed (
      rw (limit_account-Reads found w)
        (rw same (check_credentials-Refused raw new password found w0 wrong)))

  -- A login below both limits with a wrong password is answered like one with an unknown email: the error
  -- is `invalid_credentials` whatever the state of the account (deactivated, unverified, with a second
  -- factor or not there at all), and it commits one audit entry of a failed login and nothing else.
  pub authenticate_user-Refused :
      (raw : String) (new : Minted) (email password : String) (w : World vk.Store)
      → (limit_ip vk l s c m client (record w { db = w.committed })).0 ≡ ok tt
      → (limit_account vk l s c m client
          (by_email l email w.committed)
          (record w { db = w.committed })).0
        ≡ ok tt
      → Wrong password (by_email l email w.committed)
      → Refused w.committed (authenticate_user vk l s c m client raw new email password w)
  unfolding authenticate_user get_by_email ◌>>=◌
  authenticate_user-Refused raw new email password w ip account wrong =
      let w0 : World vk.Store = record w { db = w.committed } in
      rw ip (
        rw (limit_ip-Reads w0) (
          limited-Refused raw new password (by_email l email w.committed) w0 w0 (ok tt) account refl
            wrong))
