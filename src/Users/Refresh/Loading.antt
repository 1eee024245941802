-- ===== src/Users/Refresh/Loading.antt =====
-- What the checks of a refresh leave alone, and what passes them.
use customer_portal.Prelude.{
  ℕ, String, ◌≡◌, inl, inr, false, some, is_some, leb, arith, find_row, ◌==◌, Option-cases, ◌==◌,
}
use customer_portal.Valkey.{Valkey}
use customer_portal.Users.Models.{User, RefreshToken}
use customer_portal.Users.World.{
  World, Result, ok, err, Settings, Libraries, Collaborators, Moment, Client, ◌>>=◌,
}
use customer_portal.Users.Repository.{has_hash, get_by_id, get_refresh_token_by_hash}
use customer_portal.Users.Cache.{record_request, refresh_retry_after, get_revoke_before}
use customer_portal.Users.Refresh.{
  is_idle, is_deactivated, limit_refresh, load_eligible, load_token,
}

-- Nothing but the cache differs.
abbrev pub SameDb : {Store : Type 0} → World Store → World Store → Type 0
SameDb w w' = (w'.db ≡ w.db) × (w'.committed ≡ w.committed) × (w'.outbox ≡ w.outbox)

module _ (vk : Valkey) (l : Libraries) (s : Settings) (c : Collaborators) (m : Moment)
    (client : Client) where
  abbrev Limits : World vk.Store → Result (Unit {0}) × World vk.Store → Type 0
  Limits w (x, w') = SameDb w w'

  limit_refresh-Limits :
      (family : ℕ) (w : World vk.Store) → Limits w (limit_refresh vk l s c m client family w)
  unfolding limit_refresh record_request refresh_retry_after ◌>>=◌
  limit_refresh-Limits family w = ground arith

  -- The row that was read: neither expired nor revoked.
  abbrev pub LoadsToken : String → World vk.Store → Result RefreshToken × World vk.Store → Type 0
  LoadsToken hash w (ok t, w') =
      (find_row (has_hash hash) w.db.refresh_tokens ≡ some t)
      × (leb t.expires_at m.utc_now ≡ false)
      × (is_some t.revoked_at ≡ false)
      × SameDb w w'
  LoadsToken hash w (err e, w') = SameDb w w'

  pub load_token-LoadsToken :
      (hash : String) (w : World vk.Store) → LoadsToken hash w (load_token vk l s c m client hash w)
  unfolding load_token get_refresh_token_by_hash ◌>>=◌
  load_token-LoadsToken hash w =
      elim (Option-cases (find_row (has_hash hash) w.db.refresh_tokens)) [
        | inl e ↦ ground arith
        | inr (t, e) ↦ ground (arith, limit_refresh-Limits t.family_id w)
      ]

  abbrev LoadsUser : RefreshToken → World vk.Store → Result User × World vk.Store → Type 0
  LoadsUser t w (ok u, w') =
      (w' ≡ w)
      × (find_row (λ (u : User). u.id == t.user_id) w.db.users ≡ some u)
      × (is_deactivated u.status ≡ false)
      × (is_idle m.utc_now t ≡ false)
  LoadsUser t w (err e, w') = w' ≡ w

  pub load_eligible-LoadsUser :
      (t : RefreshToken) (w : World vk.Store) → LoadsUser t w (load_eligible vk l s c m client t w)
  unfolding load_eligible get_by_id get_revoke_before ◌>>=◌
  load_eligible-LoadsUser t w = ground arith
