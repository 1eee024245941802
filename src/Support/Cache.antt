-- ===== src/Support/Cache.antt =====
-- app/modules/support/cache.py: the idempotency keys and the two rate limits.
use customer_portal.Prelude.{ℕ, String, Bool, Option, none, some}
use customer_portal.Valkey.{
  Valkey, CacheValue, envelope, idempotency_key, ticket_create_rate_key, ticket_reply_rate_key,
}
use customer_portal.Support.Models.{Result, ok, err, server_error}
use customer_portal.Support.World.{Action}
use customer_portal.Counter.{incr_with_ttl, get_ttl}

pub record IdempotencyEnvelope : Type 0 where
  pub request_hash : String
  pub ticket_id : Option ℕ

-- `json.loads` of the stored text; any other text than an envelope's is an error.
abbrev pub read_envelope : Option CacheValue → Result (Option IdempotencyEnvelope)
read_envelope none = ok none
read_envelope (some (envelope h t)) = ok (some (record { request_hash = h; ticket_id = t }))
read_envelope (some _) = err server_error

module _ (vk : Valkey) where
  open vk use {Store, get, set_ex, set_nx_ex, delete, incr, expire, ttl}

  -- `TicketIdempotencyCache`
  unfoldable pub claim : ℕ → String → String → ℕ → Action Store Bool
  claim user key hash seconds w =
      let (set, s) = set_nx_ex (idempotency_key user key) (envelope hash none) seconds w.store in
      (ok set, record w { store = s })

  unfoldable pub get_envelope : ℕ → String → Action Store (Option IdempotencyEnvelope)
  get_envelope user key w = (read_envelope (get (idempotency_key user key) w.store), w)

  unfoldable pub resolve : ℕ → String → String → ℕ → ℕ → Action Store (Unit {0})
  resolve user key hash ticket_id seconds w = (
    ok tt,
    record w {
      store = set_ex (idempotency_key user key) (envelope hash (some ticket_id)) seconds w.store;
    },
  )

  unfoldable pub release : ℕ → String → Action Store (Unit {0})
  release user key w = (ok tt, record w { store = delete (idempotency_key user key) w.store })

  -- `TicketCreationRateLimitCache`
  unfoldable pub record_creation : ℕ → ℕ → Action Store ℕ
  unfolding incr_with_ttl
  record_creation user seconds = incr_with_ttl vk (ticket_create_rate_key user) seconds

  unfoldable pub creation_retry_after : ℕ → Action Store ℕ
  unfolding get_ttl
  creation_retry_after user = get_ttl vk (ticket_create_rate_key user)

  -- `TicketReplyRateLimitCache`
  unfoldable pub record_reply : ℕ → ℕ → Action Store ℕ
  unfolding incr_with_ttl
  record_reply user seconds = incr_with_ttl vk (ticket_reply_rate_key user) seconds

  unfoldable pub reply_retry_after : ℕ → Action Store ℕ
  unfolding get_ttl
  reply_retry_after user = get_ttl vk (ticket_reply_rate_key user)
