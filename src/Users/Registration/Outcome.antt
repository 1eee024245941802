-- ===== src/Users/Registration/Outcome.antt =====
-- What register_user checks and commits.
use text.Mathlib.TextEquality.{eq_iff}
use text.Mathlib.Text.{◌==◌ as str_eq}
use customer_portal.Prelude.TextOrder.{any_code}
use customer_portal.Prelude.{
  ℕ, String, Bool, true, false, ◌&&◌, ◌≡◌, Option, none, some, [], ◌∷◌, ◌++◌, leb, is_some, arith,
  find_row, if◌then◌else◌, OnRow, Bool-cases, inl, ◌⊎◌, inr, not, ap,
}
use customer_portal.Valkey.{Valkey}
use customer_portal.Users.Models.{
  Db, User, pending_verification, registration_validation, duplicate_email, UsersError,
}
use customer_portal.Users.World.{
  World, Result, Settings, Libraries, Collaborators, Moment, verification, ok, err, attempt, ◌>>=◌,
  in_session,
}
use customer_portal.Users.Repository.{create_user}
use customer_portal.AdminUsers.{send}
use customer_portal.EmailVerification.Repository.{set_tokens, create_token}
use customer_portal.EmailVerification.{Issue, text_or_empty, issue_token, issue_pending_token}
use customer_portal.EmailVerification.RoundTrip.{issued}
use customer_portal.Users.Registration.{
  Characters, Checked, valid, invalid, is_special, missing, policy, validate_password, check_email,
  register_user, register_checked, register_valid, send_link,
}

-- The printable ASCII characters but the blank, the digits and the letters.
abbrev pub is_punctuation : ℕ → Bool
is_punctuation n =
    leb 33 n
    && leb n 126
    && not (leb 48 n && leb n 57)
    && not (leb 65 n && leb n 90)
    && not (leb 97 n && leb n 122)

is_special-is_punctuation : (n : ℕ) → is_special n ≡ is_punctuation n
is_special-is_punctuation n = ground arith

any_special : (password : String) → any_code is_special password ≡ any_code is_punctuation password
any_special password = ap (λ p. any_code p password) (λ i n. is_special-is_punctuation n i)

module _ (l : Libraries) (ch : Characters) where
  -- At least eight characters, and one of each class.
  abbrev pub meets_policy : String → Bool
  meets_policy password =
      leb 8 (l.length password)
      && any_code ch.is_upper password
      && any_code ch.is_lower password
      && any_code ch.is_digit password
      && any_code is_punctuation password

  -- The normalized address of what was entered, if it is one.
  abbrev pub address : String → Option String
  address entered =
      if str_eq (l.strip entered) "" then none else ch.validate_email (l.strip entered)

  abbrev IsAddress : Option String → Checked → Type 0
  IsAddress o (valid normalized) = o ≡ some normalized
  IsAddress o (invalid message) = o ≡ none

  check_email-IsAddress :
      (email : Option String) → IsAddress (address (text_or_empty email)) (check_email l ch email)
  unfolding check_email
  check_email-IsAddress email = ground arith

  abbrev IsMet : String → Checked → Type 0
  IsMet password (valid p) = (p ≡ password) × (meets_policy password ≡ true)
  IsMet password (invalid message) = meets_policy password ≡ false

  policy-IsMet : (password : String) → IsMet password (policy password (missing l ch password))
  policy-IsMet password = ground (arith, any_special password)

  empty_password : (password : String) → str_eq password "" ≡ true → meets_policy password ≡ false
  empty_password password h = rw ((eq_iff password "").0 h) (ground arith)

  validate_password-IsMet :
      (secret : Option String) → IsMet (text_or_empty secret) (validate_password l ch secret)
  unfolding validate_password
  validate_password-IsMet secret = elim (Bool-cases (str_eq (text_or_empty secret) "")) [
    | inl blank ↦ rw blank (empty_password (text_or_empty secret) blank)
    | inr there ↦ rw there (policy-IsMet (text_or_empty secret))
  ]

-- The error of so many messages.
abbrev pub RegistrationErrors : ℕ → UsersError → Type 0
RegistrationErrors n (registration_validation (a ∷ [])) = n ≡ 1
RegistrationErrors n (registration_validation (a ∷ b ∷ [])) = n ≡ 2
RegistrationErrors n e = ⊥

-- One message for each of the address and the password that is not accepted.
abbrev pub Complains : Bool → Bool → UsersError → Type 0
Complains true true e = ⊥
Complains true false e = RegistrationErrors 1 e
Complains false true e = RegistrationErrors 1 e
Complains false false e = RegistrationErrors 2 e

module _ (vk : Valkey) (l : Libraries) (ch : Characters) (c : Collaborators) (s : Settings)
    (m : Moment) where
  -- The database with the account and the row of its token.
  abbrev pub with_account : Issue → User → Db → Db
  with_account new u d =
      set_tokens (λ ts. ts ++ issued vk l c s m new u.id ∷ [])
        (record d { users = d.users ++ u ∷ [] })

  abbrev pub has_address : String → Db → Option User
  has_address email d = find_row (λ (v : User). str_eq v.email email) d.users

  -- A new account that is still to be verified, whose password is the one entered.
  abbrev pub IsNew : ℕ → String → String → User → Type 0
  IsNew id normalized password u =
      (u.id ≡ id)
      × (u.email ≡ l.lower normalized)
      × (l.verify_password password u.hashed_password ≡ true)
      × (u.status ≡ pending_verification)
      × (u.email_verified ≡ false)
      × (u.mfa_enabled ≡ false)
      × (u.created_at ≡ m.db_now)

  abbrev pub Registers :
      Issue → ℕ → String → String → World vk.Store → Result User × World vk.Store → Type 0
  Registers new id email password w (ok u, w') =
      (meets_policy l ch password ≡ true)
      × OnRow (λ normalized. IsNew id normalized password u) (address l ch email)
      × (has_address u.email (m.others w.committed) ≡ none)
      × (w'.committed ≡ with_account new u (m.others w.committed))
      × (w'.outbox ≡ (
          if c.delivers (verification u.email new.raw_token)
          then w.outbox ++ verification u.email new.raw_token ∷ []
          else w.outbox))
  Registers new id email password w (err e, w') =
      (w'.outbox ≡ w.outbox)
      × (((e ≡ duplicate_email)
            × (meets_policy l ch password ≡ true)
            × OnRow
                (λ normalized.
                  is_some (has_address (l.lower normalized) (m.others w.committed)) ≡ true)
                (address l ch email)
            × (w'.committed ≡ m.others w.committed))
          ⊎ (Complains (is_some (address l ch email)) (meets_policy l ch password) e
              × (w'.committed ≡ w.committed)))

  register_checked-Registers :
      (new : Issue) (id salt : ℕ) (email password : String) (e p : Checked) (w : World vk.Store)
      → IsAddress l ch (address l ch email) e
      → IsMet l ch password p
      → Registers new id email password w
          (in_session (register_checked vk l ch c s m new id salt e p) w)
  unfolding in_session register_checked register_valid create_user send_link issue_pending_token
      issue_token create_token send attempt ◌>>=◌
  register_checked-Registers new id salt email password (valid e) (valid p) w a h =
      ground (arith, a, h, l.verify-hash_password salt p)
  register_checked-Registers new id salt email password (invalid e) (valid p) w a h =
      ground (arith, a, h)
  register_checked-Registers new id salt email password (valid e) (invalid p) w a h =
      ground (arith, a, h)
  register_checked-Registers new id salt email password (invalid e) (invalid p) w a h =
      ground (arith, a, h)

  -- A registration that is answered had a password of at least eight characters with an upper case and a
  -- lower case letter, a digit and a special character, and a valid address that no account had. It
  -- commits exactly one account, pending and unverified, whose address is the normalized one in lower
  -- case and whose stored hash verifies the password, and one verification token, whose link is mailed
  -- to the address if the mail server takes it. Otherwise no mail is sent and nothing is written: the
  -- address was taken, though both were valid, or the error has a message for each of the two that is not
  -- valid, and there is such a one.
  pub register_user-Registers :
      (new : Issue) (id salt : ℕ) (email password : Option String) (w : World vk.Store)
      → Registers new id
          (text_or_empty email)
          (text_or_empty password)
          w
          (register_user vk l ch c s m new id salt email password w)
  unfolding register_user
  register_user-Registers new id salt email password w =
      register_checked-Registers new id salt (text_or_empty email) (text_or_empty password)
        (check_email l ch email) (validate_password l ch password) w
        (check_email-IsAddress l ch email) (validate_password-IsMet l ch password)
