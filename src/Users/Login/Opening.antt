-- ===== src/Users/Login/Opening.antt =====
-- What a successful login leaves alone.
use customer_portal.Prelude.{ℕ, ◌+◌, String, ◌≡◌, refl, Option, List, [], ◌∷◌, arith, keep}
use customer_portal.Valkey.{Valkey}
use customer_portal.Users.World.{
  World, Result, ok, Settings, Libraries, Moment, Client, seconds, ◌>>=◌,
}
use customer_portal.Users.Repository.{
  is_live, family_created_at, create_session, create_refresh_token, update_last_login_at,
  create_auth_audit_log_entry, get_family_created_at_map_for_user, revoke_refresh_token_family,
}
use customer_portal.Users.Refresh.{Minted}
use customer_portal.Users.Login.{evict, evict_oldest_family_if_at_cap, open_session}

module _ (vk : Valkey) (l : Libraries) (s : Settings) (m : Moment) (client : Client) where
  -- A login touches neither the cache nor the recovery codes.
  abbrev pub Opens : World vk.Store → Result (Unit {0}) × World vk.Store → Type 0
  Opens w (x, w') =
      (x ≡ ok tt) × (w'.store ≡ w.store) × (w'.committed.recovery_codes ≡ w.db.recovery_codes)

  abbrev pub Evicts : World vk.Store → Result (Unit {0}) × World vk.Store → Type 0
  Evicts w (x, w') =
      (x ≡ ok tt) × (w'.store ≡ w.store) × (w'.db.recovery_codes ≡ w.db.recovery_codes)

  evict-Evicts :
      (user : ℕ) (families : List (ℕ × ℕ)) (w : World vk.Store)
      → Evicts w (evict vk l s m client user families w)
  unfolding evict revoke_refresh_token_family create_auth_audit_log_entry ◌>>=◌
  evict-Evicts user [] w = (refl, refl, refl)
  evict-Evicts user (p ∷ rest) w = (refl, refl, refl)

  pub evict_oldest-Evicts :
      (user : ℕ) (w : World vk.Store)
      → Evicts w (evict_oldest_family_if_at_cap vk l s m client user w)
  unfolding evict_oldest_family_if_at_cap get_family_created_at_map_for_user ◌>>=◌
  evict_oldest-Evicts user w = ground (
    arith,
    evict-Evicts user (family_created_at (keep (is_live m.db_now user) w.db.refresh_tokens)) w,
  )

  pub open_session-Opens :
      (scope : Option String) (new : Minted) (user : ℕ) (w : World vk.Store)
      → Opens w (open_session vk l s m client scope new user w)
  unfolding open_session create_session create_refresh_token update_last_login_at
      create_auth_audit_log_entry ◌>>=◌
  open_session-Opens scope new user w = ground (
    arith,
    evict_oldest-Evicts user
        (create_session m.db_now user new.jti (m.utc_now + seconds s.access_token_ttl_seconds) w).1,
  )
