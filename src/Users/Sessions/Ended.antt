-- ===== src/Users/Sessions/Ended.antt =====
-- What a logout ends.
use customer_portal.Prelude.{
  List, find_row-true, ==_refl, ℕ, ◌≤◌, String, Bool, true, false, ◌≡◌, refl, inl, inr, Option,
  some, is_some, arith, find_row, update_rows, find_row-update_rows, OnRow, Option-cases, ◌==◌,
}
use customer_portal.Valkey.{Valkey, instant, revoke_before_key}
use customer_portal.Users.Models.{Db, UserSession, RefreshToken, unauthenticated}
use customer_portal.Users.World.{
  World, Result, ok, err, attempt, Settings, Libraries, Collaborators, Moment, Client, ◌>>=◌,
}
use customer_portal.Users.Repository.{
  has_hash, revoke_set, get_session_by_jti, revoke_session_row, get_refresh_token_by_hash,
  revoke_refresh_token_family, create_auth_audit_log_entry,
}
use customer_portal.Users.Cache.{get_revoke_before, set_revoke_before}
use customer_portal.Users.Refresh.{AccessTokenClaims, Minted, TokenResponse, rotate_refresh_token}
use customer_portal.Users.Refresh.Rotation.{Rotates, rotate_refresh_token-Rotates}
use customer_portal.Users.Sessions.{
  Payload, decode_access_token, check_epochs, check_session, check_claims, get_authenticated_user,
  authenticate, revoke_presented, revoke_cookie, logout, logout_all,
}

abbrev pub IsErr : {A : Type 0} → Result A → Type 0
IsErr (ok a) = ⊥
IsErr (err e) = Unit

-- The row that has the session's id, if there is one, is revoked.
abbrev SessionRevoked : ℕ → Db → Type 0
SessionRevoked jti d =
    (s : UserSession)
    → find_row (λ (s : UserSession). s.jti == jti) d.sessions ≡ some s
    → is_some s.revoked_at ≡ true

abbrev TokenRevoked : String → Db → Type 0
TokenRevoked hash d =
    (t : RefreshToken)
    → find_row (has_hash hash) d.refresh_tokens ≡ some t
    → is_some t.revoked_at ≡ true

module _ (vk : Valkey) (jwt_decode : String → Option Payload) where
  authenticate-revoked :
      (allow_scoped : Bool) (token : String) (claims : AccessTokenClaims) (w : World vk.Store)
      → decode_access_token jwt_decode token ≡ some claims
      → SessionRevoked claims.jti w.committed
      → (authenticate vk jwt_decode false allow_scoped token w).0 ≡ err unauthenticated
  unfolding authenticate get_authenticated_user check_claims check_session get_session_by_jti ◌>>=◌
  authenticate-revoked allow_scoped token claims w decodes revoked =
      elim (Option-cases
        (find_row (λ (s : UserSession). s.jti == claims.jti) w.committed.sessions)) [
          | inl e ↦ ground arith
          | inr (s, e) ↦ ground (arith, revoked s e)
        ]

module _ (vk : Valkey) (l : Libraries) (s : Settings) (c : Collaborators) (m : Moment)
    (client : Client) where
  rotate-revoked :
      (new : Minted) (raw : String) (w : World vk.Store)
      → TokenRevoked (l.sha256 raw) w.committed
      → IsErr (rotate_refresh_token vk l s c m client new (some raw) w).0
  rotate-revoked new raw w revoked =
      let (x, w') = rotate_refresh_token vk l s c m client new (some raw) w in
      refused x w' (rotate_refresh_token-Rotates vk l s c m client new raw w)
    where
      refused :
          (x : Result TokenResponse) (w' : World vk.Store)
          → Rotates vk l s c m client new (l.sha256 raw) w.committed (x, w')
          → IsErr x
      refused (err e) w' h = tt
      refused (ok r) w' h =
          elim (Option-cases (find_row (has_hash (l.sha256 raw)) w.committed.refresh_tokens)) [
            | inl e ↦ elim (rw e at h.0) [ ]
            | inr (t, e) ↦ ground (arith, revoked t e)
          ]

module _ (vk : Valkey) (l : Libraries) (s : Settings) (c : Collaborators) (m : Moment)
    (client : Client) where
  abbrev Owned : String → ℕ → Db → Type 0
  Owned hash user d =
      OnRow (λ (t : RefreshToken). t.user_id ≡ user) (find_row (has_hash hash) d.refresh_tokens)

  session-revoked :
      (jti : ℕ) (rows : List UserSession) (u : UserSession)
      → find_row
          (λ (u : UserSession). u.jti == jti)
          (update_rows
            (λ (u : UserSession). u.jti == jti)
            (λ (u : UserSession). record u { revoked_at = some m.db_now })
            rows)
        ≡ some u
      → is_some u.revoked_at ≡ true
  session-revoked jti rows u h =
      let p : UserSession → Bool = λ u. u.jti == jti in
      elim (Option-cases (find_row p rows)) [
        | inl e ↦ ground (
          arith,
          find_row-update_rows p p (λ (u : UserSession). record u { revoked_at = some m.db_now })
              rows (λ r. refl),
        )
        | inr (v, e) ↦ ground (
          arith,
          find_row-true p rows v e,
          find_row-update_rows p p (λ (u : UserSession). record u { revoked_at = some m.db_now })
              rows (λ r. refl),
        )
      ]

  token-revoked :
      (hash : String) (rows : List RefreshToken) (t u : RefreshToken)
      → find_row (has_hash hash) rows ≡ some t
      → find_row (has_hash hash) (
          update_rows (λ (r : RefreshToken). r.family_id == t.family_id) (revoke_set m.db_now) rows)
        ≡ some u
      → is_some u.revoked_at ≡ true
  token-revoked hash rows t u e h = ground (
    arith,
    find_row-update_rows (has_hash hash) (λ (r : RefreshToken). r.family_id == t.family_id)
        (revoke_set m.db_now) rows (λ r. refl),
  )

  logout-revokes :
      (jti user : ℕ) (raw : String) (w : World vk.Store)
      → Owned (l.sha256 raw) user w.committed
      → SessionRevoked jti (logout vk l s m client jti user (some raw) w).1.committed
        × TokenRevoked (l.sha256 raw) (logout vk l s m client jti user (some raw) w).1.committed
  unfolding logout revoke_cookie revoke_presented revoke_session_row get_refresh_token_by_hash
      revoke_refresh_token_family create_auth_audit_log_entry ◌>>=◌
  logout-revokes jti user raw w owned =
      let ended = session-revoked jti w.committed.sessions in
      elim (Option-cases (find_row (has_hash (l.sha256 raw)) w.committed.refresh_tokens)) [
        | inl e ↦ elim (rw e at owned) [ ]
        | inr (t, e) ↦
            let mine : (t.user_id == user) ≡ true = rw (rw e at owned) (==_refl user) in
            rw e (
              rw mine (
                (λ u h. ended u h),
                (λ u h. token-revoked (l.sha256 raw) w.committed.refresh_tokens t u e h),
              ))
      ]

  -- A logout that presents a refresh token of the user ends the session: right after it no access token that
  -- carries the session's id is authenticated on any route but logout, and the refresh token is exchanged
  -- by no refresh request.
  pub logout-ends :
      (jti user : ℕ) (raw : String) (w : World vk.Store) (jwt_decode : String → Option Payload)
      (allow_scoped : Bool) (token : String) (claims : AccessTokenClaims) (later : Moment)
      (other : Client) (new : Minted)
      → Owned (l.sha256 raw) user w.committed
      → decode_access_token jwt_decode token ≡ some claims
      → claims.jti ≡ jti
      → ((authenticate vk jwt_decode false allow_scoped token
            (logout vk l s m client jti user (some raw) w).1).0
          ≡ err unauthenticated)
        × IsErr
            (rotate_refresh_token vk l s c later other new
              (some raw)
              (logout vk l s m client jti user (some raw) w).1).0
  logout-ends jti user raw w jwt_decode allow_scoped token claims later other new owned decodes
        same =
      let (sessions, tokens) = logout-revokes jti user raw w owned in
      let after_ = (logout vk l s m client jti user (some raw) w).1 in
      (
        authenticate-revoked vk jwt_decode allow_scoped token claims after_ decodes
            (rw same sessions),
        rotate-revoked vk l s c later other new raw after_ tokens,
      )

module _ (vk : Valkey) (l : Libraries) (s : Settings) (m : Moment) (client : Client) where
  -- Right after `logout_all`, no access token of the user whose session was issued up to that moment is
  -- authenticated on any route, the one of logout included.
  logout_all-ends :
      (user : ℕ) (w : World vk.Store) (jwt_decode : String → Option Payload)
      (allow_revoked allow_scoped : Bool) (token : String) (claims : AccessTokenClaims)
      (u : UserSession)
      → decode_access_token jwt_decode token ≡ some claims
      → claims.user_id ≡ user
      → find_row (λ (u : UserSession). u.jti == claims.jti) w.committed.sessions ≡ some u
      → u.issued_at ≤ m.utc_now
      → (authenticate vk jwt_decode allow_revoked allow_scoped token
          (logout_all vk l s m client user w).1).0
        ≡ err unauthenticated
  unfolding logout_all set_revoke_before create_auth_audit_log_entry authenticate
      get_authenticated_user check_claims check_session check_epochs get_session_by_jti
      get_revoke_before attempt ◌>>=◌
  logout_all-ends user w jwt_decode allow_revoked allow_scoped token claims u decodes same found
        issued =
      ground (
        arith,
        vk.get-set_ex (revoke_before_key user) (instant m.utc_now) s.refresh_token_ttl_seconds
            w.store,
      )
