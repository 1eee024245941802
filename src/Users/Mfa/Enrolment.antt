-- ===== src/Users/Mfa/Enrolment.antt =====
-- What an enrolment does to the account.
use customer_portal.Prelude.{
  find_row-true, ◌∙◌, ℕ, String, true, ◌≡◌, refl, some, find_row, update_rows, find_row-update_rows,
  ◌==◌,
}
use customer_portal.Valkey.{Valkey}
use customer_portal.Users.Models.{User}
use customer_portal.Users.World.{World, Settings, Libraries, Collaborators, Moment, Client, ◌>>=◌}
use customer_portal.Users.Repository.{get_by_id, update_mfa_pending_secret}
use customer_portal.Users.Mfa.{match_totp, verify_totp_code, enroll_mfa}

module _ (vk : Valkey) (l : Libraries) (s : Settings) (c : Collaborators) (m : Moment)
    (client : Client) where
  enrolled :
      (secret : String) (nonce user : ℕ) (password : String) (w : World vk.Store) (u : User)
      → find_row (λ (v : User). v.id == user) w.committed.users ≡ some u
      → l.verify_password password u.hashed_password ≡ true
      → (enroll_mfa vk l s c m client secret nonce user password w).1.committed.users
        ≡ update_rows
            (λ (v : User). v.id == user)
            (λ (v : User). record v { mfa_secret_encrypted = some (l.encrypt nonce secret) })
            w.committed.users
  unfolding enroll_mfa get_by_id update_mfa_pending_secret ◌>>=◌
  enrolled secret nonce user password w u found matches = rw found (rw matches refl)

  -- The effect of an enrolment, with the right password, on an account that is there
  -- is the new secret and nothing else, which takes the place of an earlier one at once, before it is
  -- activated: an account whose second factor is on keeps it on, and the codes it accepts are from then on
  -- those of the new secret only.
  pub enroll_mfa-replaces :
      (secret : String) (nonce user : ℕ) (password : String) (w : World vk.Store) (u : User)
      → find_row (λ (v : User). v.id == user) w.committed.users ≡ some u
      → l.verify_password password u.hashed_password ≡ true
      → let v = record u { mfa_secret_encrypted = some (l.encrypt nonce secret) } in
        (find_row
            (λ (v : User). v.id == user)
            (enroll_mfa vk l s c m client secret nonce user password w).1.committed.users
          ≡ some v)
        × ((at_ : ℕ) (code : String)
            → match_totp l at_ code v.mfa_secret_encrypted ≡ verify_totp_code l at_ secret code)
  unfolding match_totp
  enroll_mfa-replaces secret nonce user password w u found matches =
      let mine : (u.id == user) ≡ true =
        find_row-true (λ (v : User). v.id == user) w.committed.users u found in
      let same =
        find_row-update_rows (λ (v : User). v.id == user) (λ (v : User). v.id == user)
          (λ (v : User). record v { mfa_secret_encrypted = some (l.encrypt nonce secret) })
          w.committed.users (λ r. refl) in
      (
        rw (enrolled secret nonce user password w u found matches) (same ∙ rw found (rw mine refl)),
        λ at_ code. rw (l.decrypt-encrypt nonce secret) refl,
      )
