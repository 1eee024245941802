-- ===== src/Users/PasswordReset/Request.antt =====
-- What a request for a password reset tells, and the token that it issues.
use customer_portal.Prelude.{inl, inr, ℕ, String, ◌≡◌, sym, ◌∙◌, arith}
use customer_portal.Session.{Result-cases, after}
use customer_portal.Valkey.{
  password_reset_account_hourly_key, password_reset_ip_hourly_key, password_reset_cooldown_key,
  Valkey, CacheKey,
}
use customer_portal.Users.World.{
  Action, World, Result, ok, err, Settings, Libraries, Collaborators, Moment, Client, ◌>>=◌,
}
use customer_portal.Users.Repository.{
  get_by_email, invalidate_password_reset_tokens_for_user, create_password_reset_token,
  create_auth_audit_log_entry,
}
use customer_portal.Users.Cache.{record_attempt, attempt_retry_after}
use customer_portal.Users.PasswordReset.{
  password_reset_hourly_window_seconds, limit_attempts, limit_requests, issue_token, send_token,
  request_password_reset,
}

module _ (vk : Valkey) (l : Libraries) (s : Settings) (c : Collaborators) (m : Moment)
    (client : Client) where
  abbrev Alike : Result (Unit {0}) × World vk.Store → Result (Unit {0}) × World vk.Store → Type 0
  Alike (x, w) (y, v) = (x ≡ y) × (w.store ≡ v.store)

  after-Alike :
      (f : Unit {0} → Action vk.Store (Unit {0})) (x y : Result (Unit {0})) (w v : World vk.Store)
      → Alike (x, w) (y, v)
      → ((w v : World vk.Store) → w.store ≡ v.store → Alike (f tt w) (f tt v))
      → Alike (after x f w) (after y f v)
  after-Alike f (ok a) (ok b) w v h step = step w v h.1
  after-Alike f (err e) (err d) w v h step = (h.0, h.1)
  after-Alike f (ok a) (err d) w v h step = ground arith
  after-Alike f (err e) (ok b) w v h step = ground arith

  limit_attempts-Alike :
      (key : CacheKey) (window limit : ℕ) (w v : World vk.Store)
      → w.store ≡ v.store
      → Alike
          (limit_attempts vk l s c m client key window limit w)
          (limit_attempts vk l s c m client key window limit v)
  unfolding limit_attempts record_attempt attempt_retry_after ◌>>=◌
  limit_attempts-Alike key window limit w v same = ground (arith)

  bind-Alike :
      (a : Action vk.Store (Unit {0})) (f : Unit {0} → Action vk.Store (Unit {0}))
      → ((w v : World vk.Store) → w.store ≡ v.store → Alike (a w) (a v))
      → ((w v : World vk.Store) → w.store ≡ v.store → Alike (f tt w) (f tt v))
      → (w v : World vk.Store) → w.store ≡ v.store
      → Alike ((a >>= f) w) ((a >>= f) v)
  unfolding ◌>>=◌
  bind-Alike a f first next w v same =
      let (x, w1) = a w in let (y, v1) = a v in after-Alike f x y w1 v1 (first w v same) next

  limit_requests-Alike :
      (email_hash : String) (w v : World vk.Store)
      → w.store ≡ v.store
      → Alike
          (limit_requests vk l s c m client email_hash w)
          (limit_requests vk l s c m client email_hash v)
  unfolding limit_requests
  limit_requests-Alike email_hash =
      let cooldown : Action vk.Store (Unit {0}) =
        limit_attempts vk l s c m client (password_reset_cooldown_key email_hash)
          s.password_reset_cooldown_seconds 1 in
      let account : Action vk.Store (Unit {0}) =
        limit_attempts vk l s c m client (password_reset_account_hourly_key email_hash)
          password_reset_hourly_window_seconds s.password_reset_account_hourly_limit in
      let ip : Action vk.Store (Unit {0}) =
        limit_attempts vk l s c m client (password_reset_ip_hourly_key client.ip)
          password_reset_hourly_window_seconds s.password_reset_ip_hourly_limit in
      bind-Alike cooldown (λ _. account >>= λ _. ip)
        (limit_attempts-Alike (password_reset_cooldown_key email_hash)
          s.password_reset_cooldown_seconds 1)
        (bind-Alike account (λ _. ip)
          (limit_attempts-Alike (password_reset_account_hourly_key email_hash)
            password_reset_hourly_window_seconds s.password_reset_account_hourly_limit)
          (limit_attempts-Alike (password_reset_ip_hourly_key client.ip)
            password_reset_hourly_window_seconds s.password_reset_ip_hourly_limit))

  -- Past the limits a request is answered the same.
  pub request-limit_requests :
      (raw email : String) (w : World vk.Store)
      → (request_password_reset vk l s c m client raw email w).0
        ≡ (limit_requests vk l s c m client
            (l.sha256 (l.lower (l.strip email)))
            (record w { db = w.committed })).0
  unfolding request_password_reset issue_token send_token get_by_email
      invalidate_password_reset_tokens_for_user create_password_reset_token
      create_auth_audit_log_entry ◌>>=◌
  request-limit_requests raw email w =
      elim (Result-cases
        (limit_requests vk l s c m client (l.sha256 (l.lower (l.strip email)))
          (record w { db = w.committed })).0) [
            | inr (e, p) ↦ ground arith
            | inl (x, p) ↦ ground arith
          ]

  -- The answer to a request does not depend on the database: with the same cache, a request for an email
  -- is answered the same (accepted, or refused by the same limit with the same delay) whatever accounts
  -- there are, so that no answer tells whether an account exists.
  pub request_password_reset-Alike :
      (raw email : String) (w v : World vk.Store)
      → w.store ≡ v.store
      → (request_password_reset vk l s c m client raw email w).0
        ≡ (request_password_reset vk l s c m client raw email v).0
  request_password_reset-Alike raw email w v same =
      request-limit_requests raw email w
      ∙ (limit_requests-Alike (l.sha256 (l.lower (l.strip email))) (record w { db = w.committed })
          (record v { db = v.committed }) same).0
      ∙ sym (request-limit_requests raw email v)
