-- ===== src/Users/Models.antt =====
-- app/modules/users/models.py and exceptions.py. A UUID is a number, which the code only compares; a
-- timestamp counts microseconds. The column `pending_email` is left out.
use customer_portal.Prelude.{ℕ, String, Bool, Option, List}
use customer_portal.Administration.Models.{Tables}

-- `UserStatus` of schemas.py, and the status that app/modules/admin_users/repository.py creates with.
pub data UserStatus : Type 0 where
  pending_verification active deactivated invited : UserStatus

pub record User : Type 0 where
  pub id : ℕ
  pub email : String
  pub hashed_password : String
  pub status : UserStatus
  pub email_verified : Bool
  pub created_at : ℕ
  pub display_name : Option String
  pub locale : Option String
  pub timezone : Option String
  pub avatar_url : Option String
  pub deactivated_at : Option ℕ
  pub last_login_at : Option ℕ
  pub mfa_enabled : Bool
  pub mfa_secret_encrypted : Option String
  pub mfa_activated_at : Option ℕ
  pub mfa_reenrollment_required : Bool

pub record UserSession : Type 0 where
  pub jti : ℕ
  pub user_id : ℕ
  pub issued_at : ℕ
  pub expires_at : ℕ
  pub revoked_at : Option ℕ

pub record RefreshToken : Type 0 where
  pub token_hash : String
  pub family_id : ℕ
  pub user_id : ℕ
  pub issued_at : ℕ
  pub expires_at : ℕ
  pub revoked_at : Option ℕ
  pub consumed_at : Option ℕ
  pub last_used_at : Option ℕ
  pub ip : Option String
  pub user_agent : Option String

pub record PasswordResetToken : Type 0 where
  pub user_id : ℕ
  pub token_hash : String
  pub issued_at : ℕ
  pub expires_at : ℕ
  pub consumed_at : Option ℕ

pub record MfaRecoveryCode : Type 0 where
  pub id : ℕ
  pub user_id : ℕ
  pub code_hash : String
  pub consumed_at : Option ℕ

pub record AuthAuditLog : Type 0 where
  pub event : String
  pub reason : Option String
  pub scope : Option String
  pub severity : Option String
  pub target_family : Option ℕ
  pub actor_id : Option ℕ
  pub ip : String
  pub user_agent : Option String
  pub request_id : String

-- `AccountLifecycleAuditLog` of app/modules/account/models.py
pub record AccountLifecycleAuditLog : Type 0 where
  pub user_id : ℕ
  pub event : String
  pub actor : String
  pub reason : Option String

-- The tables of the modules users and account, and those of the modules of Administration.
pub record Db : Type 0 where
  pub users : List User
  pub sessions : List UserSession
  pub refresh_tokens : List RefreshToken
  pub reset_tokens : List PasswordResetToken
  pub recovery_codes : List MfaRecoveryCode
  pub audit : List AuthAuditLog
  pub account_audit : List AccountLifecycleAuditLog
  pub administration : Tables

-- The errors of exceptions.py and of that file in the modules account, roles, admin_users and
-- email_verification, where `self_role_change` is the CannotTargetSelfError of roles; and `server_error`
-- for what no handler maps.
pub data UsersError : Type 0 where
  registration_validation : List String → UsersError
  duplicate_email invalid_credentials email_not_verified account_deactivated : UsersError
  too_many_attempts : ℕ → UsersError
  token_invalid reset_token_invalid reset_token_expired token_stale : UsersError
  password_policy : List String → UsersError
  mfa_invalid_code mfa_required_for_role mfa_enrollment_required : UsersError
  session_not_found current_session unauthenticated server_error : UsersError
  invalid_password already_deactivated : UsersError
  insufficient_permission self_role_change privilege_escalation last_admin : UsersError
  validation_failed : String → UsersError
  not_found precondition_required precondition_failed immutable_field : UsersError
  cannot_target_self invalid_state_transition email_already_registered : UsersError
  invalid_request token_expired verification_token_invalid : UsersError

-- `status` of each exception class; an unhandled error is 500.
unfoldable pub http_status : UsersError → ℕ
http_status (registration_validation _) = 422
http_status duplicate_email = 409
http_status invalid_credentials = 401
http_status email_not_verified = 403
http_status account_deactivated = 403
http_status (too_many_attempts _) = 429
http_status token_invalid = 401
http_status reset_token_invalid = 400
http_status reset_token_expired = 400
http_status (password_policy _) = 422
http_status token_stale = 401
http_status mfa_invalid_code = 401
http_status mfa_required_for_role = 409
http_status mfa_enrollment_required = 403
http_status session_not_found = 404
http_status current_session = 409
http_status unauthenticated = 401
http_status server_error = 500
http_status invalid_password = 401
http_status already_deactivated = 409
http_status insufficient_permission = 403
http_status self_role_change = 403
http_status privilege_escalation = 403
http_status last_admin = 409
http_status (validation_failed _) = 422
http_status not_found = 404
http_status precondition_required = 400
http_status precondition_failed = 412
http_status immutable_field = 422
http_status cannot_target_self = 409
http_status invalid_state_transition = 409
http_status email_already_registered = 409
http_status invalid_request = 400
http_status token_expired = 400
http_status verification_token_invalid = 400
