-- ===== src/Valkey.antt =====
-- The cache server (Valkey, through the redis client) as the code uses it, and the key formats of
-- app/core/cache_keys.py. The server is not part of the repository: it is a parameter, with what
-- its documentation says of the commands that the code sends.
use customer_portal.Prelude.{
  ℕ, suc, ◌<◌, String, ◌≡◌, ◌≢◌, Bool, true, false, Option, none, some, ℤ,
}

-- One constructor for each function of cache_keys.py. Each format is a prefix of its own and the
-- arguments, so that two keys are equal only if they are built alike.
pub data CacheKey : Type 0 where
  revoke_before_key perm_epoch_key login_fail_account_key : ℕ → CacheKey
  login_fail_ip_key : String → CacheKey
  refresh_rate_limit_key : ℕ → CacheKey
  password_reset_cooldown_key password_reset_account_hourly_key : String → CacheKey
  password_reset_ip_hourly_key mfa_token_key mfa_verify_attempts_key : String → CacheKey
  mfa_used_step_key : ℕ → ℕ → CacheKey
  idempotency_key : ℕ → String → CacheKey
  ticket_create_rate_key ticket_reply_rate_key : ℕ → CacheKey

-- The texts that the code stores: a decimal counter, the idempotency envelope's JSON, an instant or
-- an id.
pub data CacheValue : Type 0 where
  counter : ℕ → CacheValue
  envelope : String → Option ℕ → CacheValue
  instant : ℕ → CacheValue
  uuid : ℕ → CacheValue

pub record Valkey : Type 1 where
  pub Store : Type 0
  pub get : CacheKey → Store → Option CacheValue
  -- SET key value EX seconds
  pub set_ex : CacheKey → CacheValue → ℕ → Store → Store
  -- SET key value NX EX seconds: whether it was set
  pub set_nx_ex : CacheKey → CacheValue → ℕ → Store → Bool × Store
  pub delete : CacheKey → Store → Store
  pub incr : CacheKey → Store → ℕ × Store
  pub expire : CacheKey → ℕ → Store → Store
  -- Seconds left; negative for a key that is not there or does not expire.
  pub ttl : CacheKey → Store → ℤ
  pub get-set_ex :
      (k : CacheKey) (v : CacheValue) (n : ℕ) (s : Store) → get k (set_ex k v n s) ≡ some v
  pub get-set_ex_ne :
      (j k : CacheKey) (v : CacheValue) (n : ℕ) (s : Store)
      → j ≢ k
      → get j (set_ex k v n s) ≡ get j s
  pub set_nx_ex-absent :
      (k : CacheKey) (v : CacheValue) (n : ℕ) (s : Store)
      → get k s ≡ none
      → set_nx_ex k v n s ≡ (true, set_ex k v n s)
  pub set_nx_ex-present :
      (k : CacheKey) (v w : CacheValue) (n : ℕ) (s : Store)
      → get k s ≡ some w
      → set_nx_ex k v n s ≡ (false, s)
  pub get-delete : (k : CacheKey) (s : Store) → get k (delete k s) ≡ none
  pub get-delete_ne : (j k : CacheKey) (s : Store) → j ≢ k → get j (delete k s) ≡ get j s
  pub incr-absent : (k : CacheKey) (s : Store) → get k s ≡ none → (incr k s).0 ≡ 1
  pub incr-counter :
      (k : CacheKey) (n : ℕ) (s : Store) → get k s ≡ some (counter n) → (incr k s).0 ≡ suc n
  pub get-incr-absent :
      (k : CacheKey) (s : Store) → get k s ≡ none → get k (incr k s).1 ≡ some (counter 1)
  pub get-incr-counter :
      (k : CacheKey) (n : ℕ) (s : Store)
      → get k s ≡ some (counter n)
      → get k (incr k s).1 ≡ some (counter (suc n))
  pub get-incr_ne : (j k : CacheKey) (s : Store) → j ≢ k → get j (incr k s).1 ≡ get j s
  pub get-expire : (j k : CacheKey) (n : ℕ) (s : Store) → 0 < n → get j (expire k n s) ≡ get j s
