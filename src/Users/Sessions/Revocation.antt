-- ===== src/Users/Sessions/Revocation.antt =====
-- What the revocation of one session does.
use customer_portal.Prelude.{
  ℕ, String, Bool, true, false, not, ◌&&◌, ◌≡◌, ◌⊎◌, Option, none, some, [], ◌∷◌, ◌++◌, is_some,
  ltb, arith, find_row, update_rows, OnRow, if◌then◌else◌, ◌==◌,
}
use customer_portal.Valkey.{Valkey}
use customer_portal.Users.Models.{Db, RefreshToken, session_not_found, current_session}
use customer_portal.Users.World.{World, Result, ok, err, Settings, Libraries, Moment, Client, ◌>>=◌}
use customer_portal.Users.Repository.{
  entry, has_hash, revoke_set, get_refresh_token_by_hash, get_any_refresh_token_for_family,
  revoke_refresh_token_family, create_auth_audit_log_entry,
}
use customer_portal.Users.Sessions.{family_of, is_family, resolve_current_family_id, revoke_session}

module _ (vk : Valkey) (l : Libraries) (s : Settings) (m : Moment) (client : Client) where
  -- The family of the cookie's token, if that is the user's.
  abbrev pub current_family : ℕ → Option String → Db → Option ℕ
  current_family user none d = none
  current_family user (some raw) d =
      family_of vk l s m client user (find_row (has_hash (l.sha256 raw)) d.refresh_tokens)

  abbrev pub owned : ℕ → ℕ → Db → Option RefreshToken
  owned user family d =
      find_row (λ (t : RefreshToken). t.family_id == family && t.user_id == user) d.refresh_tokens

  abbrev pub was_live : RefreshToken → Bool
  was_live t = not (is_some t.revoked_at) && ltb m.utc_now t.expires_at

  abbrev pub revoked : ℕ → ℕ → RefreshToken → Db → Db
  revoked user family t d = record d {
    refresh_tokens =
        update_rows (λ (r : RefreshToken). r.family_id == family) (revoke_set m.db_now)
          d.refresh_tokens;
    audit =
        if was_live t
        then d.audit
          ++ record (entry "session_revoked" (some user) client) { target_family = some family }
            ∷ []
        else d.audit;
  }

  abbrev pub Revokes : ℕ → ℕ → Option String → Db → Result (Unit {0}) × World vk.Store → Type 0
  Revokes user family cookie d (ok x, w') =
      (is_family vk l s m client family (current_family user cookie d) ≡ false)
      × OnRow (λ (t : RefreshToken). w'.committed ≡ revoked user family t d) (owned user family d)
  Revokes user family cookie d (err e, w') =
      (w'.committed ≡ d)
      × (((e ≡ current_session)
            × (is_family vk l s m client family (current_family user cookie d) ≡ true))
          ⊎ ((e ≡ session_not_found) × (owned user family d ≡ none)))

  -- A session is revoked only if it is not the one that the cookie belongs to and a token of its family is
  -- the user's. Then exactly its family is revoked, with an audit entry if it was live. Otherwise nothing
  -- is committed, and the error tells which of the two it was: that the session is the current one, or
  -- that the user has no such session.
  pub revoke_session-Revokes :
      (user family : ℕ) (cookie : Option String) (w : World vk.Store)
      → Revokes user family cookie w.committed (revoke_session vk l s m client user family cookie w)
  unfolding revoke_session resolve_current_family_id get_refresh_token_by_hash
      get_any_refresh_token_for_family revoke_refresh_token_family create_auth_audit_log_entry ◌>>=◌
  revoke_session-Revokes user family none w = ground arith
  revoke_session-Revokes user family (some raw) w = ground arith
