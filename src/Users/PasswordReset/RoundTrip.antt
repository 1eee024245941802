-- ===== src/Users/PasswordReset/RoundTrip.antt =====
-- A reset that is requested and then confirmed.
use text.Mathlib.TextEquality.{eq_iff}
use text.Mathlib.Text.{◌==◌ as str_eq}
use customer_portal.Prelude.{
  if◌then◌else◌, inl, inr, ℕ, ◌<◌, ◌+◌, ◌*◌, String, true, false, ◌&&◌, ◌≡◌, refl, none, some, [],
  ◌∷◌, ◌++◌, is_some, arith, find_row, update_rows, find_row-update_rows, find_row_and,
  find_row_append, leb, ◌==◌, List,
}
use customer_portal.Session.{Result-cases}
use customer_portal.Valkey.{Valkey}
use customer_portal.Users.Models.{Db, User, PasswordResetToken}
use customer_portal.Users.World.{
  password_reset, World, Result, ok, err, Settings, Libraries, Collaborators, Moment, Client,
  seconds, ◌>>=◌, Email,
}
use customer_portal.Users.Repository.{
  has_reset_hash, reset_unconsumed, reset_consume_set, get_by_id, get_by_email,
  invalidate_password_reset_tokens_for_user, create_password_reset_token,
  get_password_reset_token_by_hash, consume_password_reset_token, update_password_hash,
  create_auth_audit_log_entry,
}
use customer_portal.Users.Cache.{set_revoke_before}
use customer_portal.Users.PasswordReset.{
  is_eligible, broken_rules, issue_token, send_token, limit_attempts, limit_requests,
  request_password_reset, load_reset_token, load_account, set_password, consume_and_set,
  confirm_password_reset,
}

module _ (vk : Valkey) (l : Libraries) (s : Settings) (c : Collaborators) (m : Moment)
    (client : Client) where
  -- The row of the token.
  abbrev issued : String → ℕ → PasswordResetToken
  issued raw user = record {
    user_id = user;
    token_hash = l.sha256 raw;
    issued_at = m.db_now;
    expires_at = m.utc_now + seconds (s.password_reset_token_ttl_minutes * 60);
    consumed_at = none;
  }

  -- The mail with the token, if the mail server takes it.
  abbrev pub mailed : String → User → List Email → List Email
  mailed raw u sent =
      if c.delivers (password_reset u.email raw)
      then sent ++ password_reset u.email raw ∷ []
      else sent

  abbrev Issues : String → User → World vk.Store → Result (Unit {0}) × World vk.Store → Type 0
  Issues raw u w (err e, w') = Unit
  Issues raw u w (ok x, w') =
      (w'.outbox ≡ mailed raw u w.outbox)
      × (w'.committed.users ≡ w.committed.users)
      × (w'.committed.reset_tokens
          ≡ update_rows (λ (t : PasswordResetToken). t.user_id == u.id && reset_unconsumed t)
              (reset_consume_set m.db_now) w.committed.reset_tokens
            ++ issued raw u.id ∷ [])

  limit_attempts-db :
      (key : customer_portal.Valkey.CacheKey) (window limit : ℕ) (w : World vk.Store)
      → ((limit_attempts vk l s c m client key window limit w).1.db ≡ w.db)
        × ((limit_attempts vk l s c m client key window limit w).1.outbox ≡ w.outbox)
  unfolding limit_attempts customer_portal.Users.Cache.record_attempt
      customer_portal.Users.Cache.attempt_retry_after ◌>>=◌
  limit_attempts-db key window limit w = ground arith

  limit_requests-db :
      (email_hash : String) (w : World vk.Store)
      → ((limit_requests vk l s c m client email_hash w).1.db ≡ w.db)
        × ((limit_requests vk l s c m client email_hash w).1.outbox ≡ w.outbox)
  unfolding limit_requests ◌>>=◌
  limit_requests-db email_hash w = grind (arith, limit_attempts-db)

  request-Issues :
      (raw email : String) (w : World vk.Store) (u : User)
      → find_row
          (λ (u : User). str_eq (l.lower u.email) (l.lower (l.lower (l.strip email))))
          w.committed.users
        ≡ some u
      → is_eligible u ≡ true
      → Issues raw u w (request_password_reset vk l s c m client raw email w)
  unfolding request_password_reset issue_token send_token get_by_email
      invalidate_password_reset_tokens_for_user create_password_reset_token
      create_auth_audit_log_entry ◌>>=◌
  request-Issues raw email w u found good =
      elim (Result-cases
        (limit_requests vk l s c m client (l.sha256 (l.lower (l.strip email)))
          (record w { db = w.committed })).0) [
            | inr (e, p) ↦ ground arith
            | inl (x, p) ↦ ground (
              arith,
              limit_requests-db (l.sha256 (l.lower (l.strip email)))
                  (record w { db = w.committed }),
            )
          ]

  -- A token that is good for an account that is there.
  confirm-good :
      (salt : ℕ) (token password : String) (w : World vk.Store) (t : PasswordResetToken) (u : User)
      → find_row (has_reset_hash (l.sha256 token)) w.committed.reset_tokens ≡ some t
      → is_some t.consumed_at ≡ false
      → leb t.expires_at m.utc_now ≡ false
      → find_row (λ (u : User). u.id == t.user_id) w.committed.users ≡ some u
      → broken_rules l u password ≡ []
      → m.others w.committed ≡ w.committed
      → (confirm_password_reset vk l s c m client salt token password w).0 ≡ ok tt
  unfolding confirm_password_reset load_reset_token get_password_reset_token_by_hash load_account
      get_by_id consume_and_set consume_password_reset_token set_password update_password_hash
      set_revoke_before create_auth_audit_log_entry ◌>>=◌
  confirm-good salt token password w t u found unused fresh account rules quiet = ground (
    arith,
    found,
    unused,
    fresh,
    account,
    rules,
    quiet,
    find_row_and (has_reset_hash (l.sha256 token)) reset_unconsumed w.committed.reset_tokens t
        found,
  )

module _ (vk : Valkey) (l : Libraries) (s : Settings) (c : Collaborators) where
  fresh_row :
      (m : Moment) (client : Client) (raw : String) (u : User) (d d' : Db)
      → find_row (has_reset_hash (l.sha256 raw)) d.reset_tokens ≡ none
      → d'.reset_tokens
        ≡ update_rows
            (λ (t : PasswordResetToken). t.user_id == u.id && reset_unconsumed t)
            (reset_consume_set m.db_now)
            d.reset_tokens
          ++ issued vk l s c m client raw u.id ∷ []
      → find_row (has_reset_hash (l.sha256 raw)) d'.reset_tokens
        ≡ some (issued vk l s c m client raw u.id)
  fresh_row m client raw u d d' fresh h =
      let older =
        update_rows (λ (t : PasswordResetToken). t.user_id == u.id && reset_unconsumed t)
          (reset_consume_set m.db_now) d.reset_tokens in
      let none_ : find_row (has_reset_hash (l.sha256 raw)) older ≡ none = ground (
        arith,
        fresh,
        find_row-update_rows (has_reset_hash (l.sha256 raw))
            (λ (t : PasswordResetToken). t.user_id == u.id && reset_unconsumed t)
            (reset_consume_set m.db_now) d.reset_tokens (λ r. refl),
      ) in
      rw h (
        find_row_append (has_reset_hash (l.sha256 raw)) older (issued vk l s c m client raw u.id)
          none_ (ground (arith, eq_iff (l.sha256 raw) (l.sha256 raw))))

  -- A reset that is requested can be completed: if a request is accepted for an eligible account, the
  -- only one of its id, and the hash of the new token is that of no other row, then the request adds
  -- exactly the mail with that token to the address of the account, if the mail server takes it, and a
  -- confirmation with that token and a password that breaks no rule, before the token expires and with no
  -- other session committing in between, succeeds.
  pub confirm_password_reset-request_password_reset :
      (m m2 : Moment) (client client2 : Client) (salt : ℕ) (raw email password : String)
      (w w' : World vk.Store) (u : User)
      → find_row
          (λ (u : User). str_eq (l.lower u.email) (l.lower (l.lower (l.strip email))))
          w.committed.users
        ≡ some u
      → find_row (λ (v : User). v.id == u.id) w.committed.users ≡ some u
      → is_eligible u ≡ true
      → find_row (has_reset_hash (l.sha256 raw)) w.committed.reset_tokens ≡ none
      → request_password_reset vk l s c m client raw email w ≡ (ok tt, w')
      → m2.utc_now < m.utc_now + seconds (s.password_reset_token_ttl_minutes * 60)
      → broken_rules l u password ≡ []
      → m2.others w'.committed ≡ w'.committed
      → (w'.outbox ≡ mailed vk l s c m client raw u w.outbox)
        × ((confirm_password_reset vk l s c m2 client2 salt raw password w').0 ≡ ok tt)
  confirm_password_reset-request_password_reset m m2 client client2 salt raw email password w w' u
        found unique good fresh accepted in_time rules quiet =
      let (sent, users, tokens) =
        rw accepted at (request-Issues vk l s c m client raw email w u found good) in
      (
        sent,
        confirm-good vk l s c m2 client2 salt raw password w' (issued vk l s c m client raw u.id) u
            (fresh_row m client raw u w.committed w'.committed fresh tokens) refl
            (ground (arith, in_time)) (rw users unique) rules quiet,
      )
