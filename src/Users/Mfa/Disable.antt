-- ===== src/Users/Mfa/Disable.antt =====
-- What it takes to switch the second factor off, and what that does.
use customer_portal.Prelude.{
  inl, inr, ℕ, String, Bool, true, false, not, ◌&&◌, ◌≡◌, ◌⊎◌, Option, none, some, [], ◌∷◌, ◌++◌,
  is_some, arith, find_row, update_rows, keep, OnRow, Option-cases, ◌==◌,
}
use customer_portal.Valkey.{Valkey, revoke_before_key, instant}
use customer_portal.Users.Models.{
  Db, User, MfaRecoveryCode, invalid_credentials, mfa_required_for_role,
}
use customer_portal.Users.World.{
  World, Result, ok, err, Settings, Libraries, Collaborators, Moment, Client, ◌>>=◌,
}
use customer_portal.Users.Repository.{
  entry, get_by_id, disable_mfa_row, delete_recovery_codes_for_user, create_auth_audit_log_entry,
}
use customer_portal.Users.Cache.{set_revoke_before}
use customer_portal.Users.Mfa.{match_totp, any_privileged, disable_mfa}

module _ (vk : Valkey) (l : Libraries) (s : Settings) (c : Collaborators) (m : Moment)
    (client : Client) where
  abbrev pub both_factors : String → String → User → Bool
  both_factors password code u =
      l.verify_password password u.hashed_password
      && is_some (match_totp l m.utc_now code u.mfa_secret_encrypted)

  abbrev pub disabled : ℕ → Db → Db
  disabled user d = record d {
    users =
        update_rows (λ (u : User). u.id == user)
          (λ (u : User). record u {
            mfa_enabled = false;
            mfa_secret_encrypted = none;
            mfa_activated_at = none;
            mfa_reenrollment_required = false;
          })
          d.users;
    recovery_codes = keep (λ (r : MfaRecoveryCode). not (r.user_id == user)) d.recovery_codes;
    audit = d.audit ++ entry "mfa_disabled" (some user) client ∷ [];
  }

  -- By the account that was found.
  abbrev pub Disables :
      ℕ
      → String
      → String
      → Option User
      → World vk.Store
      → Result (Unit {0}) × World vk.Store
      → Type 0
  Disables user password code found w (ok x, w') =
      OnRow (λ (u : User). both_factors password code u ≡ true) found
      × (any_privileged (c.role_grants_of user) ≡ false)
      × (w'.committed ≡ disabled user w.committed)
      × (vk.get (revoke_before_key user) w'.store ≡ some (instant m.utc_now))
  Disables user password code found w (err e, w') =
      (w'.committed ≡ w.committed)
      × (w'.store ≡ w.store)
      × ((e ≡ invalid_credentials)
          ⊎ ((e ≡ mfa_required_for_role)
              × OnRow (λ (u : User). both_factors password code u ≡ true) found))

  -- The second factor is switched off only with the password and a code of the account together, and not
  -- for a privileged account. Then exactly the enrolment and the recovery codes are gone, with an audit
  -- entry, and the account's sessions up to now are revoked in the cache. Otherwise nothing changes, and
  -- the error tells neither which of the two was wrong nor, before both are right, that the account is
  -- privileged.
  disable_mfa-Disables :
      (user : ℕ) (password code : String) (w : World vk.Store)
      → Disables user password code
          (find_row (λ (u : User). u.id == user) w.committed.users)
          w
          (disable_mfa vk l s c m client user password code w)
  unfolding disable_mfa get_by_id disable_mfa_row delete_recovery_codes_for_user
      create_auth_audit_log_entry set_revoke_before ◌>>=◌
  disable_mfa-Disables user password code w =
      elim (Option-cases (find_row (λ (u : User). u.id == user) w.committed.users)) [
        | inl e ↦ ground arith
        | inr (u, e) ↦ ground (
          arith,
          vk.get-set_ex (revoke_before_key user) (instant m.utc_now) s.refresh_token_ttl_seconds
              w.store,
        )
      ]
