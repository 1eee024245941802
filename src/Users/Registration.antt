-- ===== src/Users/Registration.antt =====
-- `register_user` of app/modules/users/service.py with its validation.
pub mod Outcome
use Prim.Native.String.{◌++◌ as append}
use text.Mathlib.Text.{◌==◌ as str_eq}
use customer_portal.Prelude.TextOrder.{any_code}
use customer_portal.Prelude.{
  ℕ, String, Bool, true, false, not, ◌&&◌, ◌||◌, ◌≡◌, Option, none, some, List, [], ◌∷◌, ◌++◌, ltb,
  leb, is_some, arith, find_row, if◌then◌else◌, refl,
}
use customer_portal.Valkey.{Valkey}
use customer_portal.Users.Models.{
  Db, User, pending_verification, registration_validation, duplicate_email,
}
use customer_portal.Users.World.{
  World, Result, Action, Settings, Libraries, Collaborators, Moment, verification, ok, err, attempt,
  ◌>>=◌, ◌>>◌, pure, raise, or_raise, interleave, commit, in_session,
}
use customer_portal.Users.Repository.{create_user}
use customer_portal.AdminUsers.{send}
use customer_portal.EmailVerification.Repository.{set_tokens, create_token}
use customer_portal.EmailVerification.{Issue, text_or_empty, issue_token, issue_pending_token}
use customer_portal.EmailVerification.RoundTrip.{issued}

-- Python's classes of characters, and the package email_validator, which gives the normalized address.
pub record Characters : Type 0 where
  pub is_upper : ℕ → Bool
  pub is_lower : ℕ → Bool
  pub is_digit : ℕ → Bool
  pub validate_email : String → Option String

abbrev pub min_password_length : ℕ
min_password_length = 8

-- `string.punctuation`
abbrev pub is_special : ℕ → Bool
is_special n =
    leb 33 n && leb n 47 || leb 58 n && leb n 64 || leb 91 n && leb n 96 || leb 123 n && leb n 126

abbrev pub unless : Bool → String → List String
unless true message = []
unless false message = message ∷ []

-- A value, or the message of the FieldError.
pub data Checked : Type 0 where
  valid invalid : String → Checked

abbrev pub joined : List String → String
joined [] = ""
joined (m ∷ []) = m
joined (m ∷ n ∷ ms) = append m (append ", " (joined (n ∷ ms)))

abbrev pub missing : Libraries → Characters → String → List String
missing l ch password =
    unless (not (ltb (l.length password) min_password_length)) "at least 8 characters"
    ++ (unless (any_code ch.is_upper password) "an uppercase letter"
        ++ (unless (any_code ch.is_lower password) "a lowercase letter"
            ++ (unless (any_code ch.is_digit password) "a digit"
                ++ unless (any_code is_special password) "a special character")))

abbrev pub policy : String → List String → Checked
policy password [] = valid password
policy password (m ∷ ms) = invalid (append "Password must contain " (append (joined (m ∷ ms)) "."))

-- `_validate_password`
unfoldable pub validate_password : Libraries → Characters → Option String → Checked
validate_password l ch secret =
    if str_eq (text_or_empty secret) ""
    then invalid "Password is required."
    else policy (text_or_empty secret) (missing l ch (text_or_empty secret))

-- `_validate_email`
unfoldable pub check_email : Libraries → Characters → Option String → Checked
check_email l ch email =
    if str_eq (l.strip (text_or_empty email)) ""
    then invalid "Email is required."
    else elim (ch.validate_email (l.strip (text_or_empty email))) [
      | none ↦ invalid "Email address is not a valid RFC 5322 address."
      | some normalized ↦ valid normalized
    ]

-- The row of `create`, with the defaults of the other columns.
abbrev pub registered_user : ℕ → ℕ → String → String → User
registered_user now id email hash = record {
  id = id;
  email = email;
  hashed_password = hash;
  status = pending_verification;
  email_verified = false;
  created_at = now;
  display_name = none;
  locale = none;
  timezone = none;
  avatar_url = none;
  deactivated_at = none;
  last_login_at = none;
  mfa_enabled = false;
  mfa_secret_encrypted = none;
  mfa_activated_at = none;
  mfa_reenrollment_required = false;
}

module _ (vk : Valkey) (l : Libraries) (ch : Characters) (c : Collaborators) (s : Settings)
    (m : Moment) where
  -- The id and the salt of the new account are drawn at random.
  abbrev pub new_account : ℕ → ℕ → String → String → User
  new_account id salt email password =
      registered_user m.db_now id (l.lower email) (l.hash_password salt password)

  unfoldable pub send_link : Issue → User → Action vk.Store (Unit {0})
  unfolding send
  send_link new u = do
    raw ← issue_pending_token vk l c s m new u.id
    send (c.delivers (verification u.email raw)) (verification u.email raw)

  unfoldable pub register_valid : Issue → User → Action vk.Store User
  register_valid new account = do
    interleave m.others
    created ← create_user account
    u ← or_raise created duplicate_email
    commit
    attempt (send_link new u)
    pure u

  unfoldable pub register_checked : Issue → ℕ → ℕ → Checked → Checked → Action vk.Store User
  register_checked new id salt (valid email) (valid password) =
      register_valid new (new_account id salt email password)
  register_checked new id salt (invalid e) (valid p) = raise (registration_validation (e ∷ []))
  register_checked new id salt (valid e) (invalid p) = raise (registration_validation (p ∷ []))
  register_checked new id salt (invalid e) (invalid p) =
      raise (registration_validation (e ∷ p ∷ []))

  -- The answer shows the new row.
  unfoldable pub register_user :
      Issue → ℕ → ℕ → Option String → Option String → Action vk.Store User
  register_user new id salt email password =
      in_session
        (register_checked new id salt (check_email l ch email) (validate_password l ch password))
