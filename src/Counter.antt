-- ===== src/Counter.antt =====
-- The counters and stored instants that the cache gateways share: `_incr_with_ttl`, `_get_count` and
-- `_get_ttl` of app/modules/users/cache.py, which app/modules/support/cache.py has too.
use customer_portal.Prelude.{ℕ, Option, none, some, max_zero}
use customer_portal.Valkey.{Valkey, CacheKey, CacheValue, counter}
use customer_portal.Session.{Action, Result, ok, err}

-- `int(raw)` of the stored text; another text than a number's is a ValueError.
abbrev pub read_count : {Error : Type 0} → Error → Option CacheValue → Result Error ℕ
read_count e none = ok 0
read_count e (some (counter n)) = ok n
read_count e (some _) = err e

module _ (vk : Valkey) {Db Mail Error : Type 0} where
  open vk use {Store, get, incr, expire, ttl}

  -- INCR and EXPIRE in one pipeline.
  unfoldable pub incr_with_ttl : CacheKey → ℕ → Action Db Store Mail Error ℕ
  incr_with_ttl key seconds w =
      let (count, s) = incr key w.store in (ok count, record w { store = expire key seconds s })

  unfoldable pub get_count : Error → CacheKey → Action Db Store Mail Error ℕ
  get_count e key w = (read_count e (get key w.store), w)

  unfoldable pub get_ttl : CacheKey → Action Db Store Mail Error ℕ
  get_ttl key w = (ok (max_zero (ttl key w.store)), w)
