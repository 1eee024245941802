-- ===== src/Administration/Models.antt =====
-- The models of app/modules/roles, app/modules/admin_users and app/modules/email_verification.
use customer_portal.Prelude.{ℕ, String, Option, List}

-- With the scopes of `Role.permissions`, which the repository loads with the role.
pub record Role : Type 0 where
  pub id : ℕ
  pub name : String
  pub permissions : List String

pub record UserRole : Type 0 where
  pub user_id : ℕ
  pub role_id : ℕ
  pub granted_at : ℕ

pub record AdminAuditLog : Type 0 where
  pub event : String
  pub actor_id : ℕ
  pub target_id : Option ℕ
  pub old_roles : Option (List String)
  pub new_roles : Option (List String)
  pub severity : Option String
  pub request_id : String
  pub field : Option String
  pub old_value : Option String
  pub new_value : Option String
  pub reason : Option String

pub record InvitationToken : Type 0 where
  pub id : ℕ
  pub user_id : ℕ
  pub token_hash : String
  pub issued_at : ℕ
  pub expires_at : ℕ
  pub consumed_at : Option ℕ

pub record EmailVerificationToken : Type 0 where
  pub id : ℕ
  pub user_id : ℕ
  pub token_hash : String
  pub issued_at : ℕ
  pub expires_at : ℕ
  pub consumed_at : Option ℕ

-- `detail` is a sentence with these two values.
pub record UnverifiedAccountPurgeLog : Type 0 where
  pub event : String
  pub subject_user_id : ℕ
  pub created_at : ℕ
  pub window_days : ℕ

-- The tables of these modules.
pub record Tables : Type 0 where
  pub roles : List Role
  pub user_roles : List UserRole
  pub admin_audit : List AdminAuditLog
  pub invitation_tokens : List InvitationToken
  pub verification_tokens : List EmailVerificationToken
  pub purge_log : List UnverifiedAccountPurgeLog
