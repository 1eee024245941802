-- ===== src/Users/Login/Admission.antt =====
-- Whom a login admits.
use customer_portal.Prelude.{
  ap, sym, inl, inr, ◌-◌, String, true, false, ◌&&◌, ◌≡◌, ◌⊎◌, refl, Option, none, some, is_some,
  arith, find_row, OnRow, Bool-cases, ◌==◌,
}
use customer_portal.Session.{after}
use customer_portal.Valkey.{Valkey}
use customer_portal.Account.{
  may_reactivate, reactivation_grace_period, update_user, reactivate_if_within_grace,
  create_audit_log_entry, audit_reactivated, reactivate_account,
}
use customer_portal.Users.Models.{Db, User}
use customer_portal.Users.World.{
  World, Result, ok, err, Settings, Libraries, Collaborators, Moment, Client, ◌>>=◌,
}
use customer_portal.Users.Repository.{get_by_email, create_auth_audit_log_entry}
use customer_portal.Users.Cache.{
  issue, reset_account_failures, record_ip_failure, record_account_failure,
}
use customer_portal.Users.Refresh.{Minted, is_deactivated}
use customer_portal.Users.Login.{
  LoginAnswer, logged_in, mfa_required, limit_ip, limit_account, audit_failure, reject_unknown,
  reject_password, reject_account, admit, finish_login, check_credentials, authenticate_user,
}
use customer_portal.Users.Login.Refusal.{limit_ip-Reads, limit_account-Reads, by_email}

module _ (vk : Valkey) (l : Libraries) (s : Settings) (c : Collaborators) (m : Moment)
    (client : Client) where
  -- The account is in a state that may log in.
  abbrev pub Standing : User → Db → Type 0
  Standing u d =
      ((is_deactivated u.status ≡ false) × (u.email_verified ≡ true))
      ⊎ ((is_deactivated u.status ≡ true)
          × (is_some (
                find_row
                  (λ (v : User).
                    v.id == u.id && may_reactivate (m.utc_now - reactivation_grace_period) v)
                  d.users)
              ≡ true))

  abbrev Admits : User → World vk.Store → Result (Unit {0}) × World vk.Store → Type 0
  Admits u w (err e, w') = Unit
  Admits u w (ok x, w') = Standing u w.db

  admit-Admits : (u : User) (w : World vk.Store) → Admits u w (admit vk l s c m client u w)
  unfolding admit reject_account audit_failure reactivate_account reactivate_if_within_grace
      update_user audit_reactivated create_audit_log_entry create_auth_audit_log_entry ◌>>=◌
  admit-Admits u w = ground arith

  -- The answer of a login that goes on, and the session it opens.
  abbrev Finishes : User → Result LoginAnswer → Type 0
  Finishes u (err e) = Unit
  Finishes u (ok (logged_in r)) = u.mfa_enabled ≡ false
  Finishes u (ok (mfa_required raw)) = u.mfa_enabled ≡ true

  finish_login-Finishes :
      (raw : String) (new : Minted) (u : User) (w : World vk.Store)
      → Finishes u (finish_login vk l s c m client raw new u w).0
  unfolding finish_login issue reset_account_failures ◌>>=◌
  finish_login-Finishes raw new u w = ground arith

  abbrev pub Answers : String → Option User → Db → Result LoginAnswer → Type 0
  Answers password found d (err e) = Unit
  Answers password found d (ok answer) =
      OnRow
        (λ (u : User).
          (l.verify_password password u.hashed_password ≡ true)
          × Standing u (m.others d)
          × Finishes u (ok answer))
        found

  finished-Answers :
      (password : String) (u : User) (d : Db) (x : Result LoginAnswer)
      → l.verify_password password u.hashed_password ≡ true
      → Standing u (m.others d)
      → Finishes u x
      → Answers password (some u) d x
  finished-Answers password u d (err e) matches standing h = tt
  finished-Answers password u d (ok a) matches standing h = (matches, standing, h)

  admitted-Answers :
      (raw : String) (new : Minted) (password : String) (u : User) (d : Db) (w : World vk.Store)
      (x : Result (Unit {0})) (w1 : World vk.Store)
      → l.verify_password password u.hashed_password ≡ true
      → w.db ≡ m.others d
      → Admits u w (x, w1)
      → Answers password (some u) d (after x (λ _. finish_login vk l s c m client raw new u) w1).0
  admitted-Answers raw new password u d w (err e) w1 matches same h = tt
  admitted-Answers raw new password u d w (ok tt) w1 matches same h =
      finished-Answers password u d (finish_login vk l s c m client raw new u w1).0 matches
        (rw same at h) (finish_login-Finishes raw new u w1)

  check_credentials-Answers :
      (raw : String) (new : Minted) (password : String) (found : Option User) (w : World vk.Store)
      → Answers password found w.db (check_credentials vk l s c m client raw new password found w).0
  unfolding check_credentials reject_unknown reject_password audit_failure record_ip_failure
      record_account_failure create_auth_audit_log_entry ◌>>=◌
  check_credentials-Answers raw new password none w = tt
  check_credentials-Answers raw new password (some u) w =
      elim (Bool-cases (l.verify_password password u.hashed_password)) [
        | inr wrong ↦ rw wrong tt
        | inl matches ↦
            let w1 : World vk.Store = record w {
              db = m.others w.db;
              committed = m.others w.committed;
            } in
            let (x, w2) = admit vk l s c m client u w1 in
            rw matches
              (admitted-Answers raw new password u w.db w1 x w2 matches refl (admit-Admits u w1))
      ]

  limited-Answers :
      (raw : String) (new : Minted) (password : String) (found : Option User) (d : Db)
      (x : Result (Unit {0})) (w : World vk.Store)
      → w.db ≡ d
      → Answers password found d
          (after x (λ _. check_credentials vk l s c m client raw new password found) w).0
  limited-Answers raw new password found d (err e) w same = tt
  limited-Answers raw new password found d (ok tt) w same =
      rw (sym same) (check_credentials-Answers raw new password found w)

  ip-Answers :
      (raw : String) (new : Minted) (email password : String) (w0 : World vk.Store)
      (x : Result (Unit {0})) (w1 : World vk.Store)
      → w1 ≡ w0
      → Answers password
          (by_email l email w0.db)
          w0.db
          (after x
            (λ _. get_by_email l email >>= λ found.
              (limit_account vk l s c m client found >>= λ _.
              check_credentials vk l s c m client raw new password found))
            w1).0
  unfolding get_by_email ◌>>=◌
  ip-Answers raw new email password w0 (err e) w1 same = tt
  ip-Answers raw new email password w0 (ok tt) w1 same =
      let found = by_email l email w0.db in
      let (x, w2) = limit_account vk l s c m client found w0 in
      rw same (
        limited-Answers raw new password found w0.db x w2
          (ap (λ (v : World vk.Store). v.db) (limit_account-Reads vk l s c m client found w0)))

  -- A login is answered only if the email is an account's whose password verifies, and the account is
  -- either not deactivated and of a verified email, or deactivated for less than 30 days when it was
  -- reactivated. The answer has tokens if the account has no second factor, and otherwise asks for it.
  pub authenticate_user-Answers :
      (raw : String) (new : Minted) (email password : String) (w : World vk.Store)
      → Answers password
          (by_email l email w.committed)
          w.committed
          (authenticate_user vk l s c m client raw new email password w).0
  unfolding authenticate_user get_by_email ◌>>=◌
  authenticate_user-Answers raw new email password w =
      let w0 : World vk.Store = record w { db = w.committed } in
      let (x, w1) = limit_ip vk l s c m client w0 in
      ip-Answers raw new email password w0 x w1 (limit_ip-Reads vk l s c m client w0)
