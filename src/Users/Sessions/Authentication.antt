-- ===== src/Users/Sessions/Authentication.antt =====
-- Whom `get_authenticated_user` resolves.
use customer_portal.Prelude.{
  ℕ, String, Bool, true, false, not, ◌&&◌, ◌≡◌, ◌⊎◌, Option, none, some, arith, find_row, OnRow,
  ◌==◌,
}
use customer_portal.Users.Models.{UserSession, token_stale, mfa_enrollment_required}
use customer_portal.Users.World.{World, Action, Result, ok, err, attempt, ◌>>=◌}
use customer_portal.Users.Repository.{get_session_by_jti}
use customer_portal.Users.Refresh.{AccessTokenClaims, issued_before}
use customer_portal.Users.Sessions.{
  Payload, AuthenticatedUser, user_of, accepts, decode_access_token, check_permissions,
  check_epochs, check_session, check_claims, get_authenticated_user,
}

module _ {Store : Type 0} (read_revoke_before read_perm_epoch : ℕ → Action Store (Option ℕ))
    (jwt_decode : String → Option Payload) (allow_revoked allow_scoped : Bool) where
  -- The read succeeds, and the session was not issued before what it answers.
  abbrev pub Passes : UserSession → Result (Option ℕ) → Type 0
  Passes session (ok epoch) = issued_before epoch session.issued_at ≡ false
  Passes session (err e) = ⊥

  abbrev pub PassesBoth : AccessTokenClaims → UserSession → World Store → Type 0
  PassesBoth claims session w =
      let (x, w1) = read_revoke_before claims.user_id w in
      Passes session x × Passes session (read_perm_epoch claims.user_id w1).0

  abbrev pub Resolved : AuthenticatedUser → AccessTokenClaims → UserSession → World Store → Type 0
  Resolved u claims session w =
      (u ≡ user_of claims)
      × (accepts allow_revoked claims session ≡ true)
      × ((claims.mfa_enrollment_required && not allow_scoped) ≡ false)
      × PassesBoth claims session w

  abbrev Checks :
      AccessTokenClaims
      → Option UserSession
      → World Store
      → Result (Option AuthenticatedUser)
      → Type 0
  Checks claims found w (ok none) = Unit
  Checks claims found w (ok (some u)) =
      OnRow (λ (session : UserSession). Resolved u claims session w) found
  Checks claims found w (err e) = (e ≡ token_stale) ⊎ (e ≡ mfa_enrollment_required)

  check_session-Checks :
      (claims : AccessTokenClaims) (found : Option UserSession) (w : World Store)
      → Checks claims found w
          (check_session read_revoke_before read_perm_epoch jwt_decode allow_revoked allow_scoped
            claims found w).0
  unfolding check_session check_epochs check_permissions attempt ◌>>=◌
  check_session-Checks claims none w = tt
  check_session-Checks claims (some session) w = ground arith

  -- Of the claims of a token, None if it does not decode.
  abbrev pub Authenticates :
      Option AccessTokenClaims → World Store → Result (Option AuthenticatedUser) → Type 0
  Authenticates claims w (ok none) = Unit
  Authenticates claims w (ok (some u)) =
      OnRow
        (λ (claims : AccessTokenClaims).
          OnRow (λ (session : UserSession). Resolved u claims session w)
            (find_row (λ (s : UserSession). s.jti == claims.jti) w.db.sessions))
        claims
  Authenticates claims w (err e) = (e ≡ token_stale) ⊎ (e ≡ mfa_enrollment_required)

  Checks-Authenticates :
      (claims : AccessTokenClaims) (w : World Store) (r : Result (Option AuthenticatedUser))
      → Checks claims (find_row (λ (s : UserSession). s.jti == claims.jti) w.db.sessions) w r
      → Authenticates (some claims) w r
  Checks-Authenticates claims w (ok none) h = tt
  Checks-Authenticates claims w (ok (some u)) h = h
  Checks-Authenticates claims w (err e) h = h

  check_claims-Authenticates :
      (claims : Option AccessTokenClaims) (w : World Store)
      → Authenticates claims w
          (check_claims read_revoke_before read_perm_epoch jwt_decode allow_revoked allow_scoped
            claims w).0
  unfolding check_claims get_session_by_jti ◌>>=◌
  check_claims-Authenticates none w = tt
  check_claims-Authenticates (some claims) w =
      let found = find_row (λ (s : UserSession). s.jti == claims.jti) w.db.sessions in
      Checks-Authenticates claims w
        (check_session read_revoke_before read_perm_epoch jwt_decode allow_revoked allow_scoped
          claims found w).0
        (check_session-Checks claims found w)

  -- A user is resolved only if the token decodes, there is a session of its id that is the same user's
  -- and, unless the route allows it, not revoked, both the revocation and the permission epoch can be read
  -- and both are earlier than the session, and the token is not limited to MFA enrolment where the route
  -- does not allow that; and the user is the one the claims name. An error is one of the two that the
  -- routes answer, for a stale permission or for a missing enrolment.
  pub get_authenticated_user-Authenticates :
      (token : String) (w : World Store)
      → Authenticates
          (decode_access_token jwt_decode token)
          w
          (get_authenticated_user read_revoke_before read_perm_epoch jwt_decode allow_revoked
            allow_scoped token w).0
  unfolding get_authenticated_user
  get_authenticated_user-Authenticates token w =
      check_claims-Authenticates (decode_access_token jwt_decode token) w
