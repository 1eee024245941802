-- ===== src/Users/Mfa/Verification.antt =====
-- What a completed verification of the second factor has checked and used up.
use customer_portal.Prelude.{
  if◌then◌else◌, ◌∙◌, inl, inr, String, Bool, true, false, ◌&&◌, ◌≡◌, ◌⊎◌, refl, none, some,
  is_some, find_row, update_rows, keep, ◌==◌, Bool-cases,
}
use customer_portal.Session.{Result-cases, after}
use customer_portal.Valkey.{Valkey, mfa_token_key}
use customer_portal.Users.Models.{User, MfaRecoveryCode}
use customer_portal.Users.World.{
  World, Result, ok, err, Settings, Libraries, Collaborators, Moment, Client,
  mfa_recovery_used_notice, ◌>>=◌,
}
use customer_portal.Users.Repository.{
  code_unconsumed, has_code_id, code_consume_set, list_unconsumed_recovery_codes,
  set_mfa_reenrollment_required, create_auth_audit_log_entry,
}
use customer_portal.Users.Cache.{parse_user_id, consume}
use customer_portal.Users.Refresh.{Minted, TokenResponse}
use customer_portal.Users.Mfa.Recovery.{Consumes, consume_match-Consumes}
use customer_portal.Users.Mfa.{
  consume_match, try_consume_recovery_code, complete_mfa_login, verify_by_recovery_code,
  verify_by_totp, verify_code,
}
use customer_portal.Users.Mfa.Steps.{
  ByTotp, TotpVerifies, Completes, complete_mfa_login-Completes, verify_by_totp-TotpVerifies,
}

module _ (vk : Valkey) (l : Libraries) (s : Settings) (c : Collaborators) (m : Moment)
    (client : Client) where
  -- A recovery code of the user: unconsumed when it was read, and still so when it was consumed.
  abbrev pub ByRecoveryCode : String → User → World vk.Store → World vk.Store → Type 0
  ByRecoveryCode code u w w' =
      (r : MfaRecoveryCode) × (find_row (λ r. l.verify_password code r.code_hash)
          (keep (λ (r : MfaRecoveryCode). r.user_id == u.id && code_unconsumed r)
            w.db.recovery_codes)
        ≡ some r)
      × (is_some (
            find_row (λ r'. has_code_id r.id r' && code_unconsumed r')
              (m.others w.db).recovery_codes)
          ≡ true)
      × (w'.committed.recovery_codes
          ≡ update_rows (λ r'. has_code_id r.id r' && code_unconsumed r')
              (code_consume_set m.db_now) (m.others w.db).recovery_codes)

  abbrev Recovers : String → World vk.Store → Result TokenResponse × World vk.Store → Type 0
  Recovers hash w (err e, w') = Unit
  Recovers hash w (ok r, w') =
      (vk.get (mfa_token_key hash) w'.store ≡ none)
      × (w'.committed.recovery_codes ≡ w.db.recovery_codes)

  Completes-Recovers :
      (hash : String) (w v : World vk.Store) (x : Result TokenResponse) (w' : World vk.Store)
      → v.store ≡ vk.delete (mfa_token_key hash) w.store
      → v.db.recovery_codes ≡ w.db.recovery_codes
      → Completes vk l s c m client v (x, w')
      → Recovers hash w (x, w')
  Completes-Recovers hash w v (err e) w' store codes h = tt
  Completes-Recovers hash w v (ok r) w' store codes h =
      (rw h.0 (rw store (vk.get-delete (mfa_token_key hash) w.store)), h.1 ∙ codes)

  completed-Recovers :
      (new : Minted) (hash : String) (u : User) (w v : World vk.Store)
      → v.store ≡ vk.delete (mfa_token_key hash) w.store
      → v.db.recovery_codes ≡ w.db.recovery_codes
      → Recovers hash w (complete_mfa_login vk l s c m client new u v)
  completed-Recovers new hash u w v store codes =
      let (x, w') = complete_mfa_login vk l s c m client new u v in
      Completes-Recovers hash w v x w' store codes
        (complete_mfa_login-Completes vk l s c m client new u v)

  verify_by_recovery_code-Recovers :
      (new : Minted) (hash : String) (u : User) (w : World vk.Store)
      → Recovers hash w (verify_by_recovery_code vk l s c m client new hash u w)
  unfolding verify_by_recovery_code consume set_mfa_reenrollment_required
      create_auth_audit_log_entry ◌>>=◌
  verify_by_recovery_code-Recovers new hash u w =
      let sent = mfa_recovery_used_notice u.email in
      elim (Result-cases (parse_user_id (vk.get (mfa_token_key hash) w.store))) [
        | inr (e, p) ↦ rw p tt
        | inl (x, p) ↦ elim (Bool-cases (c.delivers sent)) [
          | inl yes_ ↦ rw p (
              rw yes_ (
                completed-Recovers new hash (record u { mfa_reenrollment_required = true }) w _ refl
                  refl))
          | inr no_ ↦ rw p (
              rw no_ (
                completed-Recovers new hash (record u { mfa_reenrollment_required = true }) w _ refl
                  refl))
        ]
      ]

  abbrev pub Verifies :
      String → String → User → World vk.Store → Result TokenResponse × World vk.Store → Type 0
  Verifies hash code u w (err e, w') = Unit
  Verifies hash code u w (ok r, w') =
      (vk.get (mfa_token_key hash) w'.store ≡ none)
      × (ByRecoveryCode code u w w' ⊎ ByTotp vk l s c m client code u w w')

  Recovers-Verifies :
      (hash code : String) (u : User) (w w1 : World vk.Store) (x : Result TokenResponse)
      (w' : World vk.Store)
      → Consumes vk l s c m client code
          (keep
            (λ (r : MfaRecoveryCode). r.user_id == u.id && code_unconsumed r)
            w.db.recovery_codes)
          w
          (ok true, w1)
      → Recovers hash w1 (x, w')
      → Verifies hash code u w (x, w')
  Recovers-Verifies hash code u w w1 (err e) w' h k = tt
  Recovers-Verifies hash code u w w1 (ok a) w' h k =
      let (r, found, was, codes) = h.1 in (k.0, inl (r, found, was, k.1 ∙ codes))

  TotpVerifies-Verifies :
      (hash code : String) (u : User) (w w1 : World vk.Store) (x : Result TokenResponse)
      (w' : World vk.Store)
      → w1.store ≡ w.store
      → TotpVerifies vk l s c m client hash code u w1 (x, w')
      → Verifies hash code u w (x, w')
  TotpVerifies-Verifies hash code u w w1 (err e) w' h k = tt
  TotpVerifies-Verifies hash code u w w1 (ok a) w' h k =
      let (step, matched, fresh, marked) = k.0 in (k.1, inr (step, matched, rw h at fresh, marked))

  -- After the recovery codes have been tried.
  tried-Verifies :
      (new : Minted) (hash code : String) (u : User) (w : World vk.Store) (x : Result Bool)
      (w1 : World vk.Store)
      → Consumes vk l s c m client code
          (keep
            (λ (r : MfaRecoveryCode). r.user_id == u.id && code_unconsumed r)
            w.db.recovery_codes)
          w
          (x, w1)
      → Verifies hash code u w (
          after x
            (λ recovered.
              if recovered
              then verify_by_recovery_code vk l s c m client new hash u
              else verify_by_totp vk l s c m client new hash u code)
            w1)
  tried-Verifies new hash code u w (err e) w1 h = tt
  tried-Verifies new hash code u w (ok true) w1 h =
      let (x, w') = verify_by_recovery_code vk l s c m client new hash u w1 in
      Recovers-Verifies hash code u w w1 x w' h (verify_by_recovery_code-Recovers new hash u w1)
  tried-Verifies new hash code u w (ok false) w1 h =
      let (x, w') = verify_by_totp vk l s c m client new hash u code w1 in
      TotpVerifies-Verifies hash code u w w1 x w' h
        (verify_by_totp-TotpVerifies vk l s c m client new hash code u w1)

  pub verify_code-Verifies :
      (new : Minted) (hash code : String) (u : User) (w : World vk.Store)
      → Verifies hash code u w (verify_code vk l s c m client new hash code u w)
  unfolding verify_code try_consume_recovery_code list_unconsumed_recovery_codes ◌>>=◌
  verify_code-Verifies new hash code u w =
      let candidates =
        keep (λ (r : MfaRecoveryCode). r.user_id == u.id && code_unconsumed r)
          w.db.recovery_codes in
      let (x, w1) = consume_match vk l s c m client code candidates w in
      tried-Verifies new hash code u w x w1
        (consume_match-Consumes vk l s c m client code candidates w)
