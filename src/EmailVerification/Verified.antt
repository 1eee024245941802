-- ===== src/EmailVerification/Verified.antt =====
-- What verify_email commits.
use customer_portal.Prelude.{
  ◌<◌, String, true, ◌≡◌, ◌⊎◌, Option, none, leb, is_some, arith, find_row, update_rows, OnRow,
}
use customer_portal.Valkey.{Valkey}
use customer_portal.Administration.Models.{EmailVerificationToken}
use customer_portal.Users.Models.{Db, verification_token_invalid, token_expired}
use customer_portal.Users.World.{
  World, Result, ok, err, Settings, Libraries, Collaborators, Moment, ◌>>=◌,
}
use customer_portal.Users.Rows.{set_user}
use customer_portal.EmailVerification.Repository.{
  has_token_hash, consumable, set_tokens, consume_token_set, get_token_by_hash, consume_token,
  mark_user_verified,
}
use customer_portal.EmailVerification.{text_or_empty, load_token, verify_email}

module _ (vk : Valkey) (l : Libraries) (c : Collaborators) (s : Settings) (m : Moment) where
  -- The row that the token names.
  abbrev pub token_row : String → Db → Option EmailVerificationToken
  token_row raw d = find_row (has_token_hash (l.sha256 raw)) d.administration.verification_tokens

  abbrev pub verified : EmailVerificationToken → Db → Db
  verified t d =
      set_user t.user_id (λ u. record u { email_verified = true })
        (set_tokens (update_rows (consumable t.id) (consume_token_set m.db_now)) d)

  abbrev pub Verifies : String → World vk.Store → Result (Unit {0}) × World vk.Store → Type 0
  Verifies raw w (ok x, w') =
      OnRow
        (λ t.
          (t.consumed_at ≡ none)
          × (m.utc_now < t.expires_at)
          × (is_some (
                find_row (consumable t.id)
                  (m.others w.committed).administration.verification_tokens)
              ≡ true)
          × (w'.committed ≡ verified t (m.others w.committed)))
        (token_row raw w.committed)
  Verifies raw w (err e, w') =
      ((w'.committed ≡ w.committed) ⊎ (w'.committed ≡ m.others w.committed))
      × ((e ≡ verification_token_invalid)
          ⊎ ((e ≡ token_expired)
              × OnRow (λ t. (t.consumed_at ≡ none) × (leb t.expires_at m.utc_now ≡ true))
                  (token_row raw w.committed)))

  -- A verification marks exactly the account of a token that is unexpired and unconsumed, when read and
  -- when written, and consumes the token; otherwise nothing is written, and only an expired token that
  -- was never consumed is told from an invalid one.
  pub verify_email-Verifies :
      (raw : Option String) (w : World vk.Store)
      → Verifies (text_or_empty raw) w (verify_email vk l c s m raw w)
  unfolding verify_email load_token get_token_by_hash consume_token mark_user_verified ◌>>=◌
  verify_email-Verifies raw w = ground arith
