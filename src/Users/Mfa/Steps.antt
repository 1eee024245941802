-- ===== src/Users/Mfa/Steps.antt =====
-- What a verification by a TOTP code has checked and marked.
use customer_portal.Prelude.{◌∙◌, inl, inr, ℕ, String, ◌≡◌, Option, none, some, arith, Option-cases}
use customer_portal.Session.{after}
use customer_portal.Valkey.{Valkey, counter, mfa_token_key, mfa_used_step_key}
use customer_portal.Users.Models.{User}
use customer_portal.Users.World.{
  World, Result, ok, err, Settings, Libraries, Collaborators, Moment, Client, ◌>>=◌,
}
use customer_portal.Users.Repository.{create_auth_audit_log_entry}
use customer_portal.Users.Cache.{
  parse_user_id, consume, mark_step_used, record_failed_attempt, invalidate,
}
use customer_portal.Users.Refresh.{Minted, TokenResponse}
use customer_portal.Users.Login.Opening.{open_session-Opens}
use customer_portal.Users.Mfa.{
  match_totp, complete_mfa_login, match_new_step, reject_code, verify_by_totp,
}

module _ (vk : Valkey) (l : Libraries) (s : Settings) (c : Collaborators) (m : Moment)
    (client : Client) where
  -- A TOTP code of a step that was not marked for the user before, and is marked now.
  abbrev pub ByTotp : String → User → World vk.Store → World vk.Store → Type 0
  ByTotp code u w w' =
      (step : ℕ) × (match_totp l m.utc_now code u.mfa_secret_encrypted ≡ some step)
      × (vk.get (mfa_used_step_key u.id step) w.store ≡ none)
      × (vk.get (mfa_used_step_key u.id step) w'.store ≡ some (counter 1))

  abbrev pub TotpVerifies :
      String → String → User → World vk.Store → Result TokenResponse × World vk.Store → Type 0
  TotpVerifies hash code u w (err e, w') = Unit
  TotpVerifies hash code u w (ok r, w') =
      ByTotp code u w w' × (vk.get (mfa_token_key hash) w'.store ≡ none)

  -- The login that ends a verification.
  abbrev pub Completes : World vk.Store → Result TokenResponse × World vk.Store → Type 0
  Completes w (err e, w') = ⊥
  Completes w (ok r, w') =
      (w'.store ≡ w.store) × (w'.committed.recovery_codes ≡ w.db.recovery_codes)

  Completes-store :
      (w : World vk.Store) (x : Result TokenResponse) (w' : World vk.Store)
      → Completes w (x, w')
      → w'.store ≡ w.store
  Completes-store w (ok r) w' h = h.0
  Completes-store w (err e) w' h = elim h [ ]

  pub complete_mfa_login-Completes :
      (new : Minted) (u : User) (w : World vk.Store)
      → Completes w (complete_mfa_login vk l s c m client new u w)
  unfolding complete_mfa_login ◌>>=◌
  complete_mfa_login-Completes new u w =
      ground (arith, open_session-Opens vk l s m client (some "mfa") new u.id w)

  abbrev Fails : Result TokenResponse × World vk.Store → Type 0
  Fails (ok r, w') = ⊥
  Fails (err e, w') = Unit

  reject_code-Fails :
      (hash : String) (user : ℕ) (w : World vk.Store)
      → Fails (reject_code vk l s c m client hash user w)
  unfolding reject_code record_failed_attempt invalidate create_auth_audit_log_entry ◌>>=◌
  reject_code-Fails hash user w = ground arith

  Fails-Verifies :
      (hash code : String) (u : User) (w : World vk.Store) (x : Result TokenResponse)
      (w' : World vk.Store)
      → Fails (x, w')
      → TotpVerifies hash code u w (x, w')
  Fails-Verifies hash code u w (ok r) w' h = elim h [ ]
  Fails-Verifies hash code u w (err e) w' h = tt

  totp-completes :
      (hash code : String) (u : User) (step : ℕ) (w : World vk.Store) (x : Result TokenResponse)
      (w' : World vk.Store)
      → match_totp l m.utc_now code u.mfa_secret_encrypted ≡ some step
      → vk.get (mfa_used_step_key u.id step) w.store ≡ none
      → w'.store
        ≡ vk.delete
            (mfa_token_key hash)
            (vk.set_ex (mfa_used_step_key u.id step) (counter 1) s.mfa_token_ttl_seconds w.store)
      → TotpVerifies hash code u w (x, w')
  totp-completes hash code u step w (err e) w' matched fresh store = tt
  totp-completes hash code u step w (ok r) w' matched fresh store = (
    (
      step,
      matched,
      fresh,
      rw store (
          vk.get-delete_ne (mfa_used_step_key u.id step) (mfa_token_key hash)
            (vk.set_ex (mfa_used_step_key u.id step) (counter 1) s.mfa_token_ttl_seconds w.store)
            (λ h. ground arith)
          ∙ vk.get-set_ex (mfa_used_step_key u.id step) (counter 1) s.mfa_token_ttl_seconds
              w.store),
    ),
    rw store (
        vk.get-delete (mfa_token_key hash)
          (vk.set_ex (mfa_used_step_key u.id step) (counter 1) s.mfa_token_ttl_seconds w.store)),
  )

  -- Whatever the consumed text is.
  consumed-TotpVerifies :
      (new : Minted) (hash code : String) (u : User) (step : ℕ) (w : World vk.Store)
      (x : Result (Option ℕ))
      → match_totp l m.utc_now code u.mfa_secret_encrypted ≡ some step
      → vk.get (mfa_used_step_key u.id step) w.store ≡ none
      → TotpVerifies hash code u w (
          after x
            (λ _. complete_mfa_login vk l s c m client new u)
            (record w {
              store = vk.delete (mfa_token_key hash) (
                  vk.set_ex
                    (mfa_used_step_key u.id step)
                    (counter 1)
                    s.mfa_token_ttl_seconds
                    w.store);
            }))
  consumed-TotpVerifies new hash code u step w (err e) matched fresh = tt
  consumed-TotpVerifies new hash code u step w (ok id) matched fresh =
      let w2 : World vk.Store = record w {
        store =
            vk.delete (mfa_token_key hash)
              (vk.set_ex (mfa_used_step_key u.id step) (counter 1) s.mfa_token_ttl_seconds w.store);
      } in
      let (x, w') = complete_mfa_login vk l s c m client new u w2 in
      totp-completes hash code u step w x w' matched fresh
        (Completes-store w2 x w' (complete_mfa_login-Completes new u w2))

  pub verify_by_totp-TotpVerifies :
      (new : Minted) (hash code : String) (u : User) (w : World vk.Store)
      → TotpVerifies hash code u w (verify_by_totp vk l s c m client new hash u code w)
  unfolding verify_by_totp match_new_step mark_step_used consume ◌>>=◌
  verify_by_totp-TotpVerifies new hash code u w =
      let rejected : (v : World vk.Store)
          → TotpVerifies hash code u w (reject_code vk l s c m client hash u.id v) =
        λ v.
          Fails-Verifies hash code u w (reject_code vk l s c m client hash u.id v).0
            (reject_code vk l s c m client hash u.id v).1 (reject_code-Fails hash u.id v) in
      elim (Option-cases (match_totp l m.utc_now code u.mfa_secret_encrypted)) [
        | inl e ↦ rw e (rejected w)
        | inr (step, e) ↦ elim (Option-cases (vk.get (mfa_used_step_key u.id step) w.store)) [
          | inr (v, used) ↦ rw e (
              rw
                (vk.set_nx_ex-present (mfa_used_step_key u.id step) (counter 1) v
                  s.mfa_token_ttl_seconds w.store used)
                (rejected w))
          | inl fresh ↦ rw e (
              rw
                (vk.set_nx_ex-absent (mfa_used_step_key u.id step) (counter 1)
                  s.mfa_token_ttl_seconds w.store fresh)
                (consumed-TotpVerifies new hash code u step w
                  (parse_user_id (
                    vk.get (mfa_token_key hash) (
                      vk.set_ex (mfa_used_step_key u.id step) (counter 1) s.mfa_token_ttl_seconds
                        w.store)))
                  e fresh))
        ]
      ]
