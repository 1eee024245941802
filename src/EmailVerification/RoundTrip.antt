-- ===== src/EmailVerification/RoundTrip.antt =====
-- A verification link that is sent again, and its use.
use customer_portal.Prelude.{
  ℕ, ◌+◌, ◌<◌, String, false, ◌≡◌, refl, Option, none, some, [], ◌∷◌, ◌++◌, arith, find_row,
  find_row_append, ==_refl,
}
use text.Mathlib.Text.{◌==◌ as str_eq}
use text.Mathlib.TextEquality.{eq_iff}
use customer_portal.Valkey.{Valkey}
use customer_portal.Administration.Models.{EmailVerificationToken}
use customer_portal.Users.Models.{Db, User}
use customer_portal.Users.World.{
  World, Result, ok, err, Settings, Libraries, Collaborators, Moment, hours, ◌>>=◌, verification,
}
use customer_portal.Users.Repository.{get_by_email}
use customer_portal.AdminUsers.{send}
use customer_portal.EmailVerification.Repository.{
  has_token_hash, consumable, set_tokens, get_token_by_hash, consume_token, mark_user_verified,
  create_token, get_latest_token_for_user, get_user_by_email,
}
use customer_portal.EmailVerification.{
  Issue, text_or_empty, needs_verification, load_token, verify_email, issue_token,
  check_resend_cooldown, resend_to, resend_verification,
}
use customer_portal.EmailVerification.Verified.{verified}

module _ (vk : Valkey) (l : Libraries) (c : Collaborators) (s : Settings) where
  abbrev pub issued : Moment → Issue → ℕ → EmailVerificationToken
  issued m new user = record {
    id = new.token_id;
    user_id = user;
    token_hash = l.sha256 new.raw_token;
    issued_at = m.db_now;
    expires_at = m.utc_now + hours s.verification_token_ttl_hours;
    consumed_at = none;
  }

  -- The account that an address belongs to, if it is still to be verified.
  abbrev pub unverified : Option String → Db → Option User
  unverified email d = needs_verification (
      find_row (λ (u : User). str_eq (l.lower u.email) (l.lower (l.strip (text_or_empty email))))
        d.users)

  abbrev Sends :
      Moment → Issue → User → World vk.Store → Result (Unit {0}) × World vk.Store → Type 0
  Sends m new u w (ok x, w') =
      (w'.committed ≡ set_tokens (λ ts. ts ++ issued m new u.id ∷ []) (m.others w.db))
      × (w'.outbox ≡ w.outbox ++ verification u.email new.raw_token ∷ [])
  Sends m new u w (err e, w') = Unit

  resend_to-Sends :
      (m : Moment) (new : Issue) (u : User) (w : World vk.Store)
      → Sends m new u w (resend_to vk l c s m new (some u) w)
  unfolding resend_to get_latest_token_for_user check_resend_cooldown issue_token create_token send
      ◌>>=◌
  resend_to-Sends m new u w = ground arith

  resend_verification-Sends :
      (m : Moment) (new : Issue) (email : Option String) (u : User) (w w' : World vk.Store)
      → resend_verification vk l c s m new email w ≡ (ok tt, w')
      → unverified email w.committed ≡ some u
      → (w'.committed ≡ set_tokens (λ ts. ts ++ issued m new u.id ∷ []) (m.others w.committed))
        × (w'.outbox ≡ w.outbox ++ verification u.email new.raw_token ∷ [])
  unfolding resend_verification get_user_by_email get_by_email ◌>>=◌
  resend_verification-Sends m new email u w w' done found =
      ground (arith, done, found, resend_to-Sends m new u (record w { db = w.committed }))

  -- A request that is answered, for an address that is still to be verified, sends exactly one mail, to
  -- the account's address with the new token, and that token verifies the account before it expires, with
  -- exactly the database that a verification commits. The token is not empty, its hash and its id are
  -- new, and no other session commits between reading and consuming it.
  pub verify_email-resend_verification :
      (m m2 : Moment) (new : Issue) (email : Option String) (u : User) (w w' : World vk.Store)
      → resend_verification vk l c s m new email w ≡ (ok tt, w')
      → unverified email w.committed ≡ some u
      → str_eq new.raw_token "" ≡ false
      → find_row
          (has_token_hash (l.sha256 new.raw_token))
          (m.others w.committed).administration.verification_tokens
        ≡ none
      → find_row (consumable new.token_id) (m.others w.committed).administration.verification_tokens
        ≡ none
      → m2.utc_now < m.utc_now + hours s.verification_token_ttl_hours
      → m2.others w'.committed ≡ w'.committed
      → (w'.outbox ≡ w.outbox ++ verification u.email new.raw_token ∷ [])
        × ((verify_email vk l c s m2 (some new.raw_token) w').0 ≡ ok tt)
        × ((verify_email vk l c s m2 (some new.raw_token) w').1.committed
            ≡ verified vk l c s m2 (issued m new u.id) w'.committed)
  unfolding verify_email load_token get_token_by_hash consume_token mark_user_verified ◌>>=◌
  verify_email-resend_verification m m2 new email u w w' done found real new_hash new_id early
        alone =
      let (sent, mailed) = resend_verification-Sends m new email u w w' done found in
      let rows = (m.others w.committed).administration.verification_tokens in
      let mine = issued m new u.id in
      let by_hash =
        find_row_append (has_token_hash (l.sha256 new.raw_token)) rows mine new_hash
          ((eq_iff (l.sha256 new.raw_token) (l.sha256 new.raw_token)).1 refl) in
      let by_id =
        find_row_append (consumable new.token_id) rows mine new_id
          (ground (arith, ==_refl new.token_id)) in
      rw (sent) (ground (arith, sent, mailed, by_hash, by_id, real, early, alone))
