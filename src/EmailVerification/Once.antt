-- ===== src/EmailVerification/Once.antt =====
-- Verification links: they work once, and what they leave of the account.
use customer_portal.Prelude.{
  ℕ, String, true, false, ◌≡◌, ◌≢◌, refl, sym, subst, ap, ◌∙◌, inl, inr, Option, some, ◌==◌, ==_eq,
  is_some, arith, find_row, find_row-true, find_row-Member, find_row-update_rows, Option-cases,
  OnRow, Member,
}
use customer_portal.Valkey.{Valkey}
use customer_portal.Administration.Models.{EmailVerificationToken}
use customer_portal.Users.Models.{Db, User, verification_token_invalid}
use customer_portal.Users.World.{World, ok, err, Settings, Libraries, Collaborators, Moment, ◌>>=◌}
use customer_portal.Roles.Repository.{is_active}
use customer_portal.AdminUsers.{deactivate_user}
use customer_portal.AdminUsers.Payloads.{Caller, Texts, UserRead}
use customer_portal.AdminUsers.Deactivation.{is_active_row, deactivate_user-Deactivates}
use customer_portal.EmailVerification.Repository.{
  has_token_hash, consumable, consume_token_set, get_token_by_hash,
}
use customer_portal.EmailVerification.{text_or_empty, load_token, verify_email}
use customer_portal.EmailVerification.Verified.{token_row, Verifies, verify_email-Verifies}

module _ (vk : Valkey) (l : Libraries) (c : Collaborators) (s : Settings) where
  abbrev Consumed : String → Db → Type 0
  Consumed hash d =
      OnRow (λ (t : EmailVerificationToken). is_some t.consumed_at ≡ true)
        (find_row (has_token_hash hash) d.administration.verification_tokens)

  verified-Consumed :
      (m : Moment) (raw : String) (w w' : World vk.Store)
      → token_row vk l c s m raw (m.others w.committed) ≡ token_row vk l c s m raw w.committed
      → Verifies vk l c s m raw w (ok tt, w')
      → Consumed (l.sha256 raw) w'.committed
  verified-Consumed m raw w w' same h = elim (Option-cases (token_row vk l c s m raw w.committed)) [
    | inl e ↦ absurd (rw e at h)
    | inr (t, e) ↦
        let (unused, soon, race, done) = rw e at h in
        let rows = (m.others w.committed).administration.verification_tokens in
        let row : find_row (has_token_hash (l.sha256 raw)) rows ≡ some t = same ∙ e in
        let after_ =
          find_row-update_rows (has_token_hash (l.sha256 raw)) (consumable t.id)
            (consume_token_set m.db_now) rows (λ r. refl) in
        subst (Consumed (l.sha256 raw)) (sym done) (ground (arith, after_, row, unused))
  ]

  load_token-refused :
      (m : Moment) (raw : String) (w : World vk.Store)
      → Consumed (l.sha256 raw) w.db
      → load_token vk l c s m raw w ≡ (err verification_token_invalid, w)
  unfolding load_token get_token_by_hash ◌>>=◌
  load_token-refused m raw w h = ground arith

  -- A verification link works once: presented again it is refused. Other sessions leave the token
  -- alone while it is verified.
  pub verify_email-once :
      (m m2 : Moment) (raw : Option String) (w w' : World vk.Store)
      → verify_email vk l c s m raw w ≡ (ok tt, w')
      → token_row vk l c s m (text_or_empty raw) (m.others w.committed)
        ≡ token_row vk l c s m (text_or_empty raw) w.committed
      → (verify_email vk l c s m2 raw w').0 ≡ err verification_token_invalid
  unfolding verify_email ◌>>=◌
  verify_email-once m m2 raw w w' done same =
      let used =
        verified-Consumed m (text_or_empty raw) w w' same
          (rw done at (verify_email-Verifies vk l c s m raw w)) in
      let refused =
        load_token-refused m2 (text_or_empty raw) (record w' { db = w'.committed }) used in
      ground (arith, refused)

  verified-active :
      (m : Moment) (raw : String) (id : ℕ) (w w' : World vk.Store)
      → Verifies vk l c s m raw w (ok tt, w')
      → is_some (find_row (is_active_row id) w'.committed.users)
        ≡ is_some (find_row (is_active_row id) (m.others w.committed).users)
  verified-active m raw id w w' h = elim (Option-cases (token_row vk l c s m raw w.committed)) [
    | inl e ↦ absurd (rw e at h)
    | inr (t, e) ↦
        let (unused, soon, race, done) = rw e at h in
        let after_ =
          find_row-update_rows (is_active_row id) (λ (u : User). u.id == t.user_id)
            (λ (u : User). record u { email_verified = true }) (m.others w.committed).users
            (λ r. refl) in
        subst
          (λ (d : Db).
            is_some (find_row (is_active_row id) d.users)
            ≡ is_some (find_row (is_active_row id) (m.others w.committed).users))
          (sym done) (ground (arith, after_))
  ]

  done_active :
      (x : Texts) (m2 : Moment) (by : Caller) (id : ℕ) (reason : String) (w' : World vk.Store)
      (answer : UserRead)
      → (deactivate_user vk l x c s m2 by id reason w').0 ≡ ok answer
      → is_some (find_row (is_active_row id) (m2.others w'.committed).users) ≡ true
  done_active x m2 by id reason w' answer h =
      ground (arith, h, deactivate_user-Deactivates vk l x c s m2 by id reason w')

  -- A verification of an address makes no account active: one whose status was not active before, be
  -- it the verified one or another, cannot be deactivated by an administrator afterwards. The rows of
  -- the table users have their key, and no other session changes them in between.
  pub deactivate_user-verify_email :
      (x : Texts) (m m2 : Moment) (raw : Option String) (by : Caller) (u : User) (reason : String)
      (w w' : World vk.Store) (answer : UserRead)
      → verify_email vk l c s m raw w ≡ (ok tt, w')
      → Member u (m.others w.committed).users
      → is_active u.status ≡ false
      → ((v : User) → Member v (m.others w.committed).users → v.id ≡ u.id → v ≡ u)
      → m2.others w'.committed ≡ w'.committed
      → (deactivate_user vk l x c s m2 by u.id reason w').0 ≢ ok answer
  deactivate_user-verify_email x m m2 raw by u reason w w' answer done there off keys alone h =
      let rows = (m.others w.committed).users in
      let stays =
        verified-active m (text_or_empty raw) u.id w w'
          (rw done at (verify_email-Verifies vk l c s m raw w)) in
      let active_ = rw alone at (done_active x m2 by u.id reason w' answer h) in
      elim (Option-cases (find_row (is_active_row u.id) rows)) [
        | inl e ↦ ground (arith, stays, active_, e)
        | inr (v, e) ↦
            let hit = find_row-true (is_active_row u.id) rows v e in
            let same : v ≡ u =
              keys v (find_row-Member (is_active_row u.id) rows v e)
                (==_eq v.id u.id (ground (arith, hit))) in
            ground (arith, hit, ap (λ (y : User). y.status) same, off)
      ]
