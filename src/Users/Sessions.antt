-- ===== src/Users/Sessions.antt =====
-- Who a request's access token stands for, logout and the revocation of sessions:
-- app/modules/users/service.py, app/modules/users/dependencies.py and `decode_access_token` of
-- app/core/security.py.
pub mod Authentication
pub mod Ended
pub mod Revocation
use customer_portal.Prelude.{
  ℕ, String, Bool, true, false, not, ◌&&◌, ◌||◌, Option, none, some, List, [], is_some, ltb, ◌==◌,
  if◌then◌else◌,
}
use customer_portal.Valkey.{Valkey}
use customer_portal.Users.Models.{
  UserSession, RefreshToken, token_stale, mfa_enrollment_required, unauthenticated,
  session_not_found, current_session,
}
use customer_portal.Users.World.{
  Action, Settings, Libraries, Moment, Client, attempt, ◌>>=◌, ◌>>◌, pure, raise, or_raise,
  raise_if, commit, in_session,
}
use customer_portal.Users.Repository.{
  entry, get_session_by_jti, revoke_session_row, revoke_sessions_except, get_refresh_token_by_hash,
  revoke_refresh_token_family, get_any_refresh_token_for_family, create_auth_audit_log_entry,
}
use customer_portal.Users.Cache.{set_revoke_before, get_revoke_before, get_perm_epoch}
use customer_portal.Users.Refresh.{AccessTokenClaims, issued_before}

-- What `jwt.decode` answers for a token with a valid signature that has not expired: each claim as
-- the code reads it, None where it is missing or no UUID.
pub record Payload : Type 0 where
  pub sub : Option ℕ
  pub jti : Option ℕ
  pub exp : Option ℕ
  pub scopes : Option (List String)
  pub mfa_enrollment_required : Option Bool

-- `payload.get(…, default)`
abbrev pub or_default : {A : Type 0} → Option A → A → A
or_default none a = a
or_default (some b) a = b

-- `uuid.UUID(payload["sub"])` and its like raise where there is no such claim.
abbrev pub claims_of : Payload → Option ℕ → Option ℕ → Option ℕ → Option AccessTokenClaims
claims_of payload (some user_id) (some jti) (some exp) = some (record {
  user_id = user_id;
  jti = jti;
  exp = exp;
  scopes = or_default payload.scopes [];
  mfa_enrollment_required = or_default payload.mfa_enrollment_required false;
})
claims_of payload _ _ _ = none

-- None is InvalidTokenError.
unfoldable pub decode_access_token : (String → Option Payload) → String → Option AccessTokenClaims
decode_access_token jwt_decode token = elim (jwt_decode token) [
  | none ↦ none
  | some payload ↦ claims_of payload payload.sub payload.jti payload.exp
]

pub record AuthenticatedUser : Type 0 where
  pub user_id : ℕ
  pub jti : ℕ
  pub scopes : List String
  pub mfa_enrollment_required : Bool

abbrev pub user_of : AccessTokenClaims → AuthenticatedUser
user_of claims = record {
  user_id = claims.user_id;
  jti = claims.jti;
  scopes = claims.scopes;
  mfa_enrollment_required = claims.mfa_enrollment_required;
}

-- The tests on the session's row.
abbrev pub accepts : Bool → AccessTokenClaims → UserSession → Bool
accepts allow_revoked claims session =
    (allow_revoked || not (is_some session.revoked_at)) && session.user_id == claims.user_id

-- A cache that failed refuses the token.
abbrev pub refuses : Option (Option ℕ) → ℕ → Bool
refuses none issued = true
refuses (some revoke_before) issued = issued_before revoke_before issued

-- The collaborators `RevocationCacheProtocol` and `PermissionEpochCacheProtocol`, and PyJWT.
module _ {Store : Type 0} (read_revoke_before read_perm_epoch : ℕ → Action Store (Option ℕ))
    (jwt_decode : String → Option Payload) where
  unfoldable pub check_permissions :
      Bool
      → AccessTokenClaims
      → UserSession
      → Option (Option ℕ)
      → Action Store (Option AuthenticatedUser)
  check_permissions allow_scoped claims session none = pure none
  check_permissions allow_scoped claims session (some perm_epoch) =
      if issued_before perm_epoch session.issued_at
      then raise token_stale
      else if claims.mfa_enrollment_required && not allow_scoped
      then raise mfa_enrollment_required
      else pure (some (user_of claims))

  unfoldable pub check_epochs :
      Bool → AccessTokenClaims → UserSession → Action Store (Option AuthenticatedUser)
  check_epochs allow_scoped claims session = do
    revoke_before ← attempt (read_revoke_before claims.user_id)
    if refuses revoke_before session.issued_at then pure none else (do
      perm_epoch ← attempt (read_perm_epoch claims.user_id)
      check_permissions allow_scoped claims session perm_epoch)

  unfoldable pub check_session :
      Bool → Bool → AccessTokenClaims → Option UserSession → Action Store (Option AuthenticatedUser)
  check_session allow_revoked allow_scoped claims none = pure none
  check_session allow_revoked allow_scoped claims (some session) =
      if accepts allow_revoked claims session
      then check_epochs allow_scoped claims session
      else pure none

  unfoldable pub check_claims :
      Bool → Bool → Option AccessTokenClaims → Action Store (Option AuthenticatedUser)
  check_claims allow_revoked allow_scoped none = pure none
  check_claims allow_revoked allow_scoped (some claims) = do
    found ← get_session_by_jti claims.jti
    check_session allow_revoked allow_scoped claims found

  unfoldable pub get_authenticated_user :
      Bool → Bool → String → Action Store (Option AuthenticatedUser)
  get_authenticated_user allow_revoked allow_scoped token =
      check_claims allow_revoked allow_scoped (decode_access_token jwt_decode token)

module _ (vk : Valkey) (jwt_decode : String → Option Payload) where
  -- The dependencies: `get_current_user`, and those of logout and of the MFA enrolment.
  unfoldable pub authenticate : Bool → Bool → String → Action vk.Store AuthenticatedUser
  authenticate allow_revoked allow_scoped token = in_session do
    found ←
        get_authenticated_user (get_revoke_before vk) (get_perm_epoch vk) jwt_decode allow_revoked
          allow_scoped token
    or_raise found unauthenticated

  abbrev pub get_current_user : String → Action vk.Store AuthenticatedUser
  get_current_user = authenticate false false

  abbrev pub get_current_user_allow_revoked : String → Action vk.Store AuthenticatedUser
  get_current_user_allow_revoked = authenticate true false

  abbrev pub get_current_user_allow_enrollment_scoped : String → Action vk.Store AuthenticatedUser
  get_current_user_allow_enrollment_scoped = authenticate false true

module _ (vk : Valkey) (l : Libraries) (s : Settings) (m : Moment) (client : Client) where
  -- The family of a cookie that matches a token of the user.
  unfoldable pub revoke_presented : ℕ → Option RefreshToken → Action vk.Store (Unit {0})
  revoke_presented user none = pure tt
  revoke_presented user (some t) =
      if t.user_id == user then revoke_refresh_token_family m.db_now t.family_id else pure tt

  unfoldable pub revoke_cookie : ℕ → Option String → Action vk.Store (Unit {0})
  revoke_cookie user none = pure tt
  revoke_cookie user (some raw) = do
    found ← get_refresh_token_by_hash (l.sha256 raw)
    revoke_presented user found

  unfoldable pub logout : ℕ → ℕ → Option String → Action vk.Store (Unit {0})
  logout jti user refresh_token = in_session do
    revoke_session_row m.db_now jti
    revoke_cookie user refresh_token
    create_auth_audit_log_entry
        (record (entry "logout" (some user) client) { scope = some "session" })
    commit

  unfoldable pub logout_all : ℕ → Action vk.Store (Unit {0})
  logout_all user = in_session do
    set_revoke_before vk m.utc_now user s.refresh_token_ttl_seconds
    create_auth_audit_log_entry
        (record (entry "logout" (some user) client) { scope = some "all_sessions" })
    commit

  unfoldable pub revoke_other_sessions : ℕ → Option ℕ → Action vk.Store (Unit {0})
  revoke_other_sessions user except_jti = do revoke_sessions_except m.db_now user except_jti; commit

  abbrev pub family_of : ℕ → Option RefreshToken → Option ℕ
  family_of user none = none
  family_of user (some t) = if t.user_id == user then some t.family_id else none

  unfoldable pub resolve_current_family_id : ℕ → Option String → Action vk.Store (Option ℕ)
  resolve_current_family_id user none = pure none
  resolve_current_family_id user (some raw) = do
    found ← get_refresh_token_by_hash (l.sha256 raw)
    pure (family_of user found)

  abbrev pub is_family : ℕ → Option ℕ → Bool
  is_family family none = false
  is_family family (some current) = current == family

  unfoldable pub revoke_session : ℕ → ℕ → Option String → Action vk.Store (Unit {0})
  revoke_session user family refresh_cookie = in_session do
    current ← resolve_current_family_id user refresh_cookie
    raise_if (is_family family current) current_session
    found ← get_any_refresh_token_for_family family user
    owned ← or_raise found session_not_found
    revoke_refresh_token_family m.db_now family
    if not (is_some owned.revoked_at) && ltb m.utc_now owned.expires_at
        then create_auth_audit_log_entry
            (record (entry "session_revoked" (some user) client) { target_family = some family })
        else pure tt
    commit
