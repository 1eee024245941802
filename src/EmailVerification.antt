-- ===== src/EmailVerification.antt =====
-- `EmailVerificationService` of app/modules/email_verification/service.py, and the job
-- scripts/purge_unverified_accounts.py, which runs its last method.
pub mod Repository
pub mod Verified
pub mod Once
pub mod RoundTrip
pub mod Purge
use customer_portal.Prelude.TextOrder.{has_code}
use customer_portal.Prelude.{
  ℕ, ◌+◌, ◌-◌, String, Bool, not, ◌&&◌, ◌||◌, Option, none, some, List, [], ◌∷◌, is_some, ltb, leb,
  length, if◌then◌else◌,
}
use text.Mathlib.Text.{◌==◌ as str_eq}
use Prim.Native.Nat.{◌/◌}
use customer_portal.Valkey.{Valkey}
use customer_portal.Administration.Models.{EmailVerificationToken}
use customer_portal.Users.Models.{
  User, verification_token_invalid, token_expired, invalid_request, too_many_attempts,
}
use customer_portal.Users.World.{
  Action, Settings, Libraries, Collaborators, Moment, verification, seconds, hours, days, ◌>>=◌,
  ◌>>◌, pure, raise, or_raise, raise_if, interleave, commit, in_session, ok, err,
}
use customer_portal.AdminUsers.{send}
use customer_portal.EmailVerification.Repository.{
  get_user_by_email, get_latest_token_for_user, get_token_by_hash, create_token, consume_token,
  mark_user_verified, find_purge_candidates, delete_user, create_audit_log,
}

-- `raw_token or ""`, `email or ""`
abbrev pub text_or_empty : Option String → String
text_or_empty none = ""
text_or_empty (some t) = t

abbrev pub needs_verification : Option User → Option User
needs_verification none = none
needs_verification (some u) = if u.email_verified then none else some u

-- What a request draws at random.
pub record Issue : Type 0 where
  pub token_id : ℕ
  pub raw_token : String

module _ (vk : Valkey) (l : Libraries) (c : Collaborators) (s : Settings) (m : Moment) where
  unfoldable pub load_token : String → Action vk.Store EmailVerificationToken
  load_token raw = do
    raise_if (str_eq raw "") verification_token_invalid
    found ← get_token_by_hash (l.sha256 raw)
    t ← or_raise found verification_token_invalid
    raise_if (is_some t.consumed_at) verification_token_invalid
    raise_if (leb t.expires_at m.utc_now) token_expired
    pure t

  unfoldable pub verify_email : Option String → Action vk.Store (Unit {0})
  verify_email raw = in_session do
    t ← load_token (text_or_empty raw)
    interleave m.others
    won ← consume_token m.db_now t.id
    raise_if (not won) verification_token_invalid
    mark_user_verified t.user_id
    commit

  -- `_issue_token`
  unfoldable pub issue_token : Issue → ℕ → Action vk.Store (Unit {0})
  issue_token new user = create_token (record {
    id = new.token_id;
    user_id = user;
    token_hash = l.sha256 new.raw_token;
    issued_at = m.db_now;
    expires_at = m.utc_now + hours s.verification_token_ttl_hours;
    consumed_at = none;
  })

  unfoldable pub issue_pending_token : Issue → ℕ → Action vk.Store String
  issue_pending_token new user = do issue_token new user; commit; pure new.raw_token

  unfoldable pub check_resend_cooldown : Option EmailVerificationToken → Action vk.Store (Unit {0})
  check_resend_cooldown none = pure tt
  check_resend_cooldown (some t) =
      let free_at = t.issued_at + seconds s.resend_cooldown_seconds in
      raise_if (ltb m.utc_now free_at) (too_many_attempts ((free_at - m.utc_now) / seconds 1))

  unfoldable pub resend_to : Issue → Option User → Action vk.Store (Unit {0})
  unfolding send
  resend_to new none = pure tt
  resend_to new (some u) = do
    last ← get_latest_token_for_user u.id
    check_resend_cooldown last
    interleave m.others
    issue_token new u.id
    commit
    send (c.delivers (verification u.email new.raw_token)) (verification u.email new.raw_token)

  -- The answer is the same text always; 64 is the number of "@".
  unfoldable pub resend_verification : Issue → Option String → Action vk.Store (Unit {0})
  resend_verification new email = in_session do
    raise_if
        (str_eq (l.strip (text_or_empty email)) ""
          || not (has_code 64 (l.strip (text_or_empty email))))
        invalid_request
    found ← get_user_by_email l (l.strip (text_or_empty email))
    resend_to new (needs_verification found)

  unfoldable pub purge_each : (ℕ → Bool) → List User → Action vk.Store (Unit {0})
  purge_each referenced [] = pure tt
  purge_each referenced (u ∷ us) = do
    create_audit_log (record {
      event = "unverified_account_purged";
      subject_user_id = u.id;
      created_at = u.created_at;
      window_days = s.unverified_account_purge_after_days;
    })
    delete_user referenced u.id
    purge_each referenced us

  unfoldable pub purge_unverified_accounts : (ℕ → Bool) → Action vk.Store ℕ
  purge_unverified_accounts referenced = in_session do
    candidates ← find_purge_candidates (m.utc_now - days s.unverified_account_purge_after_days)
    interleave m.others
    purge_each referenced candidates
    commit
    pure (length candidates)
