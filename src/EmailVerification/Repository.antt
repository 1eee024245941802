-- ===== src/EmailVerification/Repository.antt =====
-- `EmailVerificationRepository` of app/modules/email_verification/repository.py.
use text.Mathlib.Text.{◌==◌ as str_eq}
use customer_portal.Prelude.{
  ℕ, String, Bool, true, not, ◌&&◌, Option, some, List, [], ◌∷◌, ◌++◌, is_some, ltb, ◌==◌, keep,
  find_row, update_rows, latest_row, if◌then◌else◌,
}
use customer_portal.Administration.Models.{
  UserRole, InvitationToken, EmailVerificationToken, UnverifiedAccountPurgeLog,
}
use customer_portal.Users.Models.{
  Db, User, UserSession, RefreshToken, PasswordResetToken, MfaRecoveryCode, server_error,
}
use customer_portal.Users.World.{Action, Libraries, ok, err, modify_db, query}
use customer_portal.Users.Rows.{set_user}
use customer_portal.Users.Repository.{get_by_email}
use customer_portal.Roles.Repository.{set_tables}

abbrev pub has_token_hash : String → EmailVerificationToken → Bool
has_token_hash hash t = str_eq t.token_hash hash

abbrev pub token_unconsumed : EmailVerificationToken → Bool
token_unconsumed t = not (is_some t.consumed_at)

abbrev pub consumable : ℕ → EmailVerificationToken → Bool
consumable id t = t.id == id && token_unconsumed t

abbrev pub set_tokens : (List EmailVerificationToken → List EmailVerificationToken) → Db → Db
set_tokens f = set_tables λ t. record t { verification_tokens = f t.verification_tokens }

abbrev pub consume_token_set : ℕ → EmailVerificationToken → EmailVerificationToken
consume_token_set now t = record t { consumed_at = some now }

-- WHERE email_verified IS FALSE AND created_at < cutoff
abbrev pub is_purge_candidate : ℕ → User → Bool
is_purge_candidate cutoff u = not u.email_verified && ltb u.created_at cutoff

-- DELETE FROM users WHERE id = …, with the rows that go with it by ON DELETE CASCADE.
abbrev pub without_user : ℕ → Db → Db
without_user id d = record d {
  users = keep (λ (u : User). not (u.id == id)) d.users;
  sessions = keep (λ (r : UserSession). not (r.user_id == id)) d.sessions;
  refresh_tokens = keep (λ (r : RefreshToken). not (r.user_id == id)) d.refresh_tokens;
  reset_tokens = keep (λ (r : PasswordResetToken). not (r.user_id == id)) d.reset_tokens;
  recovery_codes = keep (λ (r : MfaRecoveryCode). not (r.user_id == id)) d.recovery_codes;
  administration = record d.administration {
    user_roles = keep (λ (r : UserRole). not (r.user_id == id)) d.administration.user_roles;
    invitation_tokens =
        keep (λ (r : InvitationToken). not (r.user_id == id)) d.administration.invitation_tokens;
    verification_tokens =
        keep (λ (r : EmailVerificationToken). not (r.user_id == id))
          d.administration.verification_tokens;
  };
}

module _ {Store : Type 0} where
  unfoldable pub get_user_by_email : Libraries → String → Action Store (Option User)
  unfolding get_by_email
  get_user_by_email l email = get_by_email l email

  unfoldable pub get_latest_token_for_user : ℕ → Action Store (Option EmailVerificationToken)
  unfolding query
  get_latest_token_for_user user = query λ d.
      latest_row (λ (t : EmailVerificationToken). t.issued_at)
        (keep (λ (t : EmailVerificationToken). t.user_id == user)
          d.administration.verification_tokens)

  unfoldable pub get_token_by_hash : String → Action Store (Option EmailVerificationToken)
  unfolding query
  get_token_by_hash hash =
      query λ d. find_row (has_token_hash hash) d.administration.verification_tokens

  unfoldable pub create_token : EmailVerificationToken → Action Store (Unit {0})
  unfolding modify_db
  create_token t = modify_db (set_tokens λ ts. ts ++ t ∷ [])

  -- Whether this call consumed the token.
  unfoldable pub consume_token : ℕ → ℕ → Action Store Bool
  consume_token now id w = (
    ok (is_some (find_row (consumable id) w.db.administration.verification_tokens)),
    record w { db = set_tokens (update_rows (consumable id) (consume_token_set now)) w.db },
  )

  unfoldable pub mark_user_verified : ℕ → Action Store (Unit {0})
  unfolding modify_db
  mark_user_verified user = modify_db (set_user user λ u. record u { email_verified = true })

  unfoldable pub find_purge_candidates : ℕ → Action Store (List User)
  unfolding query
  find_purge_candidates cutoff = query λ d. keep (is_purge_candidate cutoff) d.users

  -- A row of the support tables that names the user refuses the deletion.
  unfoldable pub delete_user : (ℕ → Bool) → ℕ → Action Store (Unit {0})
  delete_user referenced id w =
      if referenced id
      then (err server_error, w)
      else (ok tt, record w { db = without_user id w.db })

  unfoldable pub create_audit_log : UnverifiedAccountPurgeLog → Action Store (Unit {0})
  unfolding modify_db
  create_audit_log e = modify_db (set_tables λ t. record t { purge_log = t.purge_log ++ e ∷ [] })
