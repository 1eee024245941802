-- ===== src/Users/Refresh/Rotation.antt =====
-- What a rotation commits, and when.
use mathlib.Core.Path.{subst}
use customer_portal.Prelude.{
  ℕ, String, ◌≡◌, ◌⊎◌, inl, inr, true, false, none, some, [], ◌∷◌, ◌++◌, is_some, ◌&&◌, leb, arith,
  find_row, update_rows, if◌then◌else◌, ◌==◌, Option-cases, Bool-cases, ◌+◌, ◌==◌, OnRow, ap, ◌∙◌,
  sym,
}
use customer_portal.Session.{Result-cases, after}
use customer_portal.Valkey.{Valkey}
use customer_portal.Users.Models.{Db, User, RefreshToken, token_invalid}
use customer_portal.Users.World.{
  World, Result, ok, err, Settings, Libraries, Collaborators, Moment, Client, seconds, ◌>>=◌,
}
use customer_portal.Users.Repository.{
  has_hash, is_unconsumed, consume_set, revoke_set, entry, get_by_id, get_refresh_token_by_hash,
  revoke_refresh_token_family, consume_refresh_token, create_refresh_token, create_session,
  create_auth_audit_log_entry,
}
use customer_portal.Users.Refresh.{
  Minted, TokenResponse, token_response, successor, in_grace, is_idle, is_deactivated, alert_reuse,
  handle_reuse, handle_reuse_or_race, handle_raced, reject_consumed, lose_race, mint, mint_or_lose,
  load_eligible, rotate_unconsumed, load_token, rotate_refresh_token,
}
use customer_portal.Users.Refresh.Loading.{
  LoadsToken, load_token-LoadsToken, load_eligible-LoadsUser,
}

-- What reuse does to the database.
abbrev pub family_revoked : ℕ → Client → RefreshToken → Db → Db
family_revoked now client t d = record d {
  refresh_tokens =
      update_rows (λ (r : RefreshToken). r.family_id == t.family_id) (revoke_set now)
        d.refresh_tokens;
  audit =
      d.audit
      ++ record (entry "refresh_reuse_detected" (some t.user_id) client) { severity = some "high" }
        ∷ [];
}

-- What a rotation does to it.
abbrev pub rotated :
    Libraries → Settings → Moment → Client → Minted → String → RefreshToken → Db → Db
rotated l s m client new hash t d = record d {
  refresh_tokens =
      update_rows (λ r. has_hash hash r && is_unconsumed r) (consume_set m.db_now) d.refresh_tokens
      ++ successor m client (l.sha256 new.raw_token) t ∷ [];
  sessions =
      d.sessions
      ++ record {
        jti = new.jti;
        user_id = t.user_id;
        issued_at = m.db_now;
        expires_at = m.utc_now + seconds s.access_token_ttl_seconds;
        revoked_at = none;
      }
        ∷ [];
}

module _ (vk : Valkey) (l : Libraries) (s : Settings) (c : Collaborators) (m : Moment)
    (client : Client) where
  -- Nothing, or the consequences of reuse.
  abbrev pub Reacts : ℕ → RefreshToken → Db → Db → Type 0
  Reacts now t d d' =
      ((in_grace now t ≡ true) × (d' ≡ d))
      ⊎ ((in_grace now t ≡ false) × (d' ≡ family_revoked m.db_now client t d))

  abbrev Handles : ℕ → RefreshToken → World vk.Store → Result (Unit {0}) × World vk.Store → Type 0
  Handles now t w (x, w') = (x ≡ ok tt) × Reacts now t w.committed w'.committed

  handle_reuse_or_race-Handles :
      (now : ℕ) (t : RefreshToken) (w : World vk.Store)
      → w.db ≡ w.committed
      → Handles now t w (handle_reuse_or_race vk l s c m client now t w)
  unfolding handle_reuse_or_race handle_reuse alert_reuse revoke_refresh_token_family
      create_auth_audit_log_entry get_by_id ◌>>=◌
  handle_reuse_or_race-Handles now t w same = ground arith

  abbrev pub Rejects :
      RefreshToken → World vk.Store → Result TokenResponse × World vk.Store → Type 0
  Rejects t w (ok a, w') = ⊥
  Rejects t w (err e, w') = (e ≡ token_invalid) × Reacts m.utc_now t w.committed w'.committed

  pub reject_consumed-Rejects :
      (t : RefreshToken) (w : World vk.Store)
      → w.db ≡ w.committed
      → Rejects t w (reject_consumed vk l s c m client t w)
  unfolding reject_consumed ◌>>=◌
  reject_consumed-Rejects t w same = ground (arith, handle_reuse_or_race-Handles m.utc_now t w same)

  -- A lost race.
  abbrev Loses : String → World vk.Store → Result TokenResponse × World vk.Store → Type 0
  Loses hash w (ok a, w') = ⊥
  Loses hash w (err e, w') =
      (w'.committed ≡ w.committed)
      ⊎ OnRow (λ t. Reacts m.utc_again t w.committed w'.committed)
          (find_row (has_hash hash) w.committed.refresh_tokens)

  lose_race-Loses :
      (hash : String) (w : World vk.Store)
      → w.db ≡ w.committed
      → Loses hash w (lose_race vk l s c m client hash w)
  unfolding lose_race handle_raced get_refresh_token_by_hash ◌>>=◌
  lose_race-Loses hash w same =
      elim (Option-cases (find_row (has_hash hash) w.committed.refresh_tokens)) [
        | inl e ↦ ground arith
        | inr (t, e) ↦ ground (arith, handle_reuse_or_race-Handles m.utc_again t w same)
      ]

  -- The outcome of the part that follows the consuming UPDATE.
  abbrev pub Ends :
      Minted → String → User → World vk.Store → Result TokenResponse × World vk.Store → Type 0
  Ends new hash u w (ok r, w') =
      OnRow
        (λ t.
          (w'.committed ≡ rotated l s m client new hash t w.db)
          × (r ≡ token_response s c m.utc_now u new.jti new.raw_token))
        (find_row (λ t. has_hash hash t && is_unconsumed t) w.db.refresh_tokens)
  Ends new hash u w (err e, w') =
      (w'.committed ≡ w.committed)
      ⊎ OnRow (λ t. Reacts m.utc_again t w.committed w'.committed)
          (find_row (has_hash hash) w.committed.refresh_tokens)

  pub mint_or_lose-Ends :
      (new : Minted) (hash : String) (u : User) (w : World vk.Store)
      → w.db ≡ w.committed
      → Ends new hash u w
          ((consume_refresh_token m.db_now hash >>= mint_or_lose vk l s c m client new hash u) w)
  unfolding consume_refresh_token mint_or_lose mint create_refresh_token create_session ◌>>=◌
  mint_or_lose-Ends new hash u w same =
      elim (Option-cases (find_row (λ t. has_hash hash t && is_unconsumed t) w.db.refresh_tokens)) [
        | inl e ↦ ground (arith, lose_race-Loses hash w same)
        | inr (t, e) ↦ ground arith
      ]

  -- What a refresh answers and commits, from the database that it read.
  abbrev pub Rotates : Minted → String → Db → Result TokenResponse × World vk.Store → Type 0
  Rotates new hash d (ok r, w') =
      OnRow
        (λ t0.
          (leb t0.expires_at m.utc_now ≡ false)
          × (is_some t0.revoked_at ≡ false)
          × (is_some t0.consumed_at ≡ false)
          × (is_idle m.utc_now t0 ≡ false)
          × OnRow
              (λ u.
                (is_deactivated u.status ≡ false)
                × (r ≡ token_response s c m.utc_now u new.jti new.raw_token))
              (find_row (λ (u : User). u.id == t0.user_id) d.users))
        (find_row (has_hash hash) d.refresh_tokens)
      × OnRow (λ t. w'.committed ≡ rotated l s m client new hash t (m.others d))
          (find_row (λ t. has_hash hash t && is_unconsumed t) (m.others d).refresh_tokens)
  Rotates new hash d (err e, w') =
      (w'.committed ≡ d)
      ⊎ (w'.committed ≡ m.others d)
      ⊎ OnRow (λ t. (is_some t.consumed_at ≡ true) × Reacts m.utc_now t d w'.committed)
          (find_row (has_hash hash) d.refresh_tokens)
      ⊎ OnRow (λ t. Reacts m.utc_again t (m.others d) w'.committed)
          (find_row (has_hash hash) (m.others d).refresh_tokens)

  rotate_unconsumed-Rotates :
      (new : Minted) (hash : String) (t : RefreshToken) (w : World vk.Store)
      → w.db ≡ w.committed
      → find_row (has_hash hash) w.committed.refresh_tokens ≡ some t
      → leb t.expires_at m.utc_now ≡ false
      → is_some t.revoked_at ≡ false
      → is_some t.consumed_at ≡ false
      → Rotates new hash w.committed (rotate_unconsumed vk l s c m client new hash t w)
  unfolding rotate_unconsumed ◌>>=◌
  rotate_unconsumed-Rotates new hash t w same found fresh live unused =
      elim (Result-cases (load_eligible vk l s c m client t w).0) [
        | inr (e, p) ↦ ground (arith, load_eligible-LoadsUser vk l s c m client t w)
        | inl (u, p) ↦
            let w' : World vk.Store = record w {
              db = m.others w.db;
              committed = m.others w.committed;
            } in
            ground (
              arith,
              load_eligible-LoadsUser vk l s c m client t w,
              mint_or_lose-Ends new hash u w' (ap m.others same),
            )
      ]

  -- The end of the session changes nothing that is committed.
  Rotates-closed :
      (new : Minted) (hash : String) (d : Db) (w' : World vk.Store) (x : Result TokenResponse)
      → Rotates new hash d (x, w')
      → Rotates new hash d (x, record w' { db = w'.committed })
  Rotates-closed new hash d w' (ok r) h = h
  Rotates-closed new hash d w' (err e) h = h

  loaded-Rotates :
      (new : Minted) (hash : String) (w w1 : World vk.Store) (x : Result RefreshToken)
      → LoadsToken vk l s c m client hash (record w { db = w.committed }) (x, w1)
      → Rotates new hash w.committed (
          after x
            (λ t.
              if is_some t.consumed_at
              then reject_consumed vk l s c m client t
              else rotate_unconsumed vk l s c m client new hash t)
            w1)
  loaded-Rotates new hash w w1 (err e) h = inl h.1
  loaded-Rotates new hash w w1 (ok t) h =
      let same : w1.db ≡ w1.committed = h.3.0 ∙ sym h.3.1 in
      elim (Bool-cases (is_some t.consumed_at)) [
        | inl used ↦ rw used (ground (arith, reject_consumed-Rejects t w1 same))
        | inr unused ↦ rw unused (
            subst (λ d. Rotates new hash d (rotate_unconsumed vk l s c m client new hash t w1))
              h.3.1 (rotate_unconsumed-Rotates new hash t w1 same (rw h.3.1 h.0) h.1 h.2 unused))
      ]

  -- A refresh ends in one of two ways. Either it answers a new token, and then the presented one was, when
  -- it was read, neither expired nor revoked nor consumed nor idle, its user was there and not deactivated,
  -- and still unconsumed at the write; and committed are, on top of what other sessions committed, exactly
  -- its consumption, a successor of the same family that expires with it, and a session. Or it raises, and
  -- this session has committed nothing, or, where the token had been consumed outside the grace window (as
  -- it was read, or as it is read again after a lost race), the revocation of its whole family with an audit
  -- entry of high severity.
  pub rotate_refresh_token-Rotates :
      (new : Minted) (raw : String) (w : World vk.Store)
      → Rotates new
          (l.sha256 raw)
          w.committed
          (rotate_refresh_token vk l s c m client new (some raw) w)
  unfolding rotate_refresh_token ◌>>=◌
  rotate_refresh_token-Rotates new raw w =
      let hash = l.sha256 raw in
      let (x, w1) = load_token vk l s c m client hash (record w { db = w.committed }) in
      let rest =
        loaded-Rotates new hash w w1 x
          (load_token-LoadsToken vk l s c m client hash (record w { db = w.committed })) in
      let (y, w2) =
        after x
          (λ t.
            if is_some t.consumed_at
            then reject_consumed vk l s c m client t
            else rotate_unconsumed vk l s c m client new hash t)
          w1 in
      Rotates-closed new hash w.committed w2 y rest
