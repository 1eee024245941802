-- ===== src/Tests/Accounts.antt =====
-- Sample accounts and their sessions, and libraries that meet their assumptions.
use text.Mathlib.Text.{◌==◌ as str_eq}
use text.Mathlib.TextEquality.{eq_iff}
use customer_portal.Prelude.{none, some, [], ◌∷◌, true, false, refl}
use customer_portal.Users.Models.{
  User, UserSession, RefreshToken, PasswordResetToken, MfaRecoveryCode, Db, active,
}
use customer_portal.Administration.Models.{Tables}
use customer_portal.Users.World.{World, Libraries, Collaborators, Moment, Client}
use customer_portal.Users.Refresh.{Minted}
use customer_portal.Users.Sessions.{Payload}

abbrev pub user : User
user = record {
  id = 7;
  email = "user@example.org";
  hashed_password = "password";
  status = active;
  email_verified = true;
  created_at = 1;
  display_name = none;
  locale = none;
  timezone = none;
  avatar_url = none;
  deactivated_at = none;
  last_login_at = none;
  mfa_enabled = false;
  mfa_secret_encrypted = none;
  mfa_activated_at = none;
  mfa_reenrollment_required = false;
}

abbrev pub mfa_user : User
mfa_user = record user {
  id = 8;
  email = "mfa@example.org";
  mfa_enabled = true;
  mfa_secret_encrypted = some "123456";
}

abbrev pub session : UserSession
session = record { jti = 1; user_id = 7; issued_at = 10; expires_at = 1000; revoked_at = none }

abbrev pub token : RefreshToken
token = record {
  token_hash = "token";
  family_id = 3;
  user_id = 7;
  issued_at = 10;
  expires_at = 1000;
  revoked_at = none;
  consumed_at = none;
  last_used_at = none;
  ip = none;
  user_agent = none;
}

abbrev pub reset_token : PasswordResetToken
reset_token = record {
  user_id = 7;
  token_hash = "reset";
  issued_at = 10;
  expires_at = 1000;
  consumed_at = none;
}

abbrev pub recovery_code : MfaRecoveryCode
recovery_code = record { id = 1; user_id = 8; code_hash = "recovery"; consumed_at = none }

abbrev pub tables : Tables
tables = record {
  roles = [];
  user_roles = [];
  admin_audit = [];
  invitation_tokens = [];
  verification_tokens = [];
  purge_log = [];
}

abbrev pub accounts : Db
accounts = record {
  users = user ∷ mfa_user ∷ [];
  sessions = session ∷ [];
  refresh_tokens = token ∷ [];
  reset_tokens = reset_token ∷ [];
  recovery_codes = recovery_code ∷ [];
  audit = [];
  account_audit = [];
  administration = tables;
}

abbrev pub world : {Store : Type 0} → Store → World Store
world s = record { db = accounts; committed = accounts; store = s; outbox = [] }

-- Nothing is hashed or encrypted here, and the code of a secret is the secret.
abbrev pub libraries : Libraries
libraries = record {
  lower = λ s. s;
  strip = λ s. s;
  length = λ s. 12;
  sha256 = λ s. s;
  hash_password = λ salt p. p;
  verify_password = λ p h. str_eq p h;
  hotp = λ secret step. secret;
  encrypt = λ nonce secret. secret;
  decrypt = λ secret. secret;
  is_breached_password = λ p. false;
  verify-hash_password = λ salt p. (eq_iff p p).1 refl;
  decrypt-encrypt = λ nonce secret. refl;
}

abbrev pub services : Collaborators
services = record { scopes_of = λ _. []; role_grants_of = λ _. []; delivers = λ _. true }

abbrev pub moment : Moment
moment = record { utc_now = 100; utc_again = 102; db_now = 101; others = λ d. d }

abbrev pub client : Client
client = record { ip = "::1"; user_agent = none; request_id = "r" }

abbrev pub new : Minted
new = record { raw_token = "new"; jti = 2; family_id = 4 }

-- Every token is for the session above.
abbrev pub payload : Payload
payload = record {
  sub = some 7;
  jti = some 1;
  exp = some 1000;
  scopes = none;
  mfa_enrollment_required = none;
}
