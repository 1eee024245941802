-- ===== src/EmailVerification/Purge.antt =====
-- What the purge of unverified accounts deletes.
use mathlib.Core.List.{append-nil, append_assoc}
use customer_portal.Prelude.{
  ℕ, ◌-◌, Bool, true, false, not, ◌&&◌, ◌||◌, ◌≡◌, refl, sym, ap, ◌∙◌, inl, inr, List, [], ◌∷◌,
  ◌++◌, ◌==◌, arith, contains, keep, length, Member, Member-keep, Bool-cases,
}
use customer_portal.Valkey.{Valkey}
use customer_portal.Administration.Models.{EmailVerificationToken, UnverifiedAccountPurgeLog}
use customer_portal.Users.Models.{Db, User, UserSession, server_error}
use customer_portal.Users.World.{
  World, Result, ok, err, Settings, Libraries, Collaborators, Moment, days, ◌>>=◌,
}
use customer_portal.Roles.Repository.{set_tables}
use customer_portal.EmailVerification.Repository.{
  is_purge_candidate, without_user, find_purge_candidates, delete_user, create_audit_log,
}
use customer_portal.EmailVerification.{purge_each, purge_unverified_accounts}

abbrev pub ids_of_users : List User → List ℕ
ids_of_users [] = []
ids_of_users (u ∷ us) = u.id ∷ ids_of_users us

-- The rows that name none of the users.
abbrev pub spared : {R : Type 0} → (R → ℕ) → List User → List R → List R
spared owner us = keep λ r. not (contains (owner r) (ids_of_users us))

abbrev pub any_referenced : (ℕ → Bool) → List User → Bool
any_referenced referenced [] = false
any_referenced referenced (u ∷ us) = referenced u.id || any_referenced referenced us

keep_ext :
    {R : Type 0} (p q : R → Bool) (rs : List R) → ((r : R) → p r ≡ q r) → keep p rs ≡ keep q rs
keep_ext p q [] h = refl
keep_ext p q (r ∷ rs) h = ground (arith, h r, keep_ext p q rs h)

keep-keep :
    {R : Type 0} (p q : R → Bool) (rs : List R) → keep p (keep q rs) ≡ keep (λ r. q r && p r) rs
keep-keep p q [] = refl
keep-keep p q (r ∷ rs) = ground (arith, keep-keep p q rs)

spared_cons :
    {R : Type 0} (owner : R → ℕ) (u : User) (us : List User) (rs : List R)
    → spared owner us (keep (λ r. not (owner r == u.id)) rs) ≡ spared owner (u ∷ us) rs
spared_cons owner u us rs =
    keep-keep (λ r. not (contains (owner r) (ids_of_users us))) (λ r. not (owner r == u.id)) rs
    ∙ keep_ext (λ r. not (owner r == u.id) && not (contains (owner r) (ids_of_users us)))
        (λ r. not (contains (owner r) (ids_of_users (u ∷ us)))) rs (λ r. ground arith)

spared_nil : {R : Type 0} (owner : R → ℕ) (rs : List R) → rs ≡ spared owner [] rs
spared_nil owner [] = refl
spared_nil owner (r ∷ rs) = ap (λ xs. r ∷ xs) (spared_nil owner rs)

module _ (vk : Valkey) (l : Libraries) (c : Collaborators) (s : Settings) (m : Moment) where
  abbrev pub purge_entry : User → UnverifiedAccountPurgeLog
  purge_entry u = record {
    event = "unverified_account_purged";
    subject_user_id = u.id;
    created_at = u.created_at;
    window_days = s.unverified_account_purge_after_days;
  }

  abbrev pub purge_entries : List User → List UnverifiedAccountPurgeLog
  purge_entries [] = []
  purge_entries (u ∷ us) = purge_entry u ∷ purge_entries us

  -- The accounts are gone with their tokens and sessions, and each deletion is logged.
  abbrev pub IsPurged : List User → Db → Db → Type 0
  IsPurged us d d' =
      (d'.users ≡ spared (λ (u : User). u.id) us d.users)
      × (d'.administration.verification_tokens
          ≡ spared (λ (t : EmailVerificationToken). t.user_id) us
              d.administration.verification_tokens)
      × (d'.sessions ≡ spared (λ (t : UserSession). t.user_id) us d.sessions)
      × (d'.administration.purge_log ≡ d.administration.purge_log ++ purge_entries us)

  abbrev PurgesEach :
      (ℕ → Bool) → List User → World vk.Store → Result (Unit {0}) × World vk.Store → Type 0
  PurgesEach referenced us w (ok x, w') =
      (any_referenced referenced us ≡ false) × IsPurged us w.db w'.db
  PurgesEach referenced us w (err e, w') =
      (any_referenced referenced us ≡ true) × (e ≡ server_error) × (w'.committed ≡ w.committed)

  abbrev logged : User → Db → Db
  logged u = set_tables λ t. record t { purge_log = t.purge_log ++ purge_entry u ∷ [] }

  IsPurged-cons :
      (u : User) (us : List User) (d d' : Db)
      → IsPurged us (without_user u.id (logged u d)) d'
      → IsPurged (u ∷ us) d d'
  IsPurged-cons u us d d' (a, b, e, g) = (
    a ∙ spared_cons (λ (x : User). x.id) u us d.users,
    b
        ∙ spared_cons (λ (t : EmailVerificationToken). t.user_id) u us
            d.administration.verification_tokens,
    e ∙ spared_cons (λ (t : UserSession). t.user_id) u us d.sessions,
    g ∙ append_assoc d.administration.purge_log (purge_entry u ∷ []) (purge_entries us),
  )

  purge_each-PurgesEach :
      (referenced : ℕ → Bool) (us : List User) (w : World vk.Store)
      → PurgesEach referenced us w (purge_each vk l c s m referenced us w)
  unfolding purge_each create_audit_log delete_user ◌>>=◌
  purge_each-PurgesEach referenced [] w = (
    refl,
    (
      spared_nil (λ (u : User). u.id) w.db.users,
      spared_nil (λ (t : EmailVerificationToken). t.user_id)
          w.db.administration.verification_tokens,
      spared_nil (λ (t : UserSession). t.user_id) w.db.sessions,
      sym (append-nil w.db.administration.purge_log),
    ),
  )
  purge_each-PurgesEach referenced (u ∷ us) w = elim (Bool-cases (referenced u.id)) [
    | inl e ↦ ground (arith, e)
    | inr e ↦
        let later =
          purge_each-PurgesEach referenced us
            (record w { db = without_user u.id (logged u w.db) }) in
        ground (
          arith,
          e,
          later,
          IsPurged-cons u us w.db
              (purge_each vk l c s m referenced us
                (record w { db = without_user u.id (logged u w.db) })).1.db,
        )
  ]

  abbrev pub cutoff : ℕ
  cutoff = m.utc_now - days s.unverified_account_purge_after_days

  -- The accounts that are due when the job reads them.
  abbrev pub due : Db → List User
  due d = keep (is_purge_candidate cutoff) d.users

  abbrev pub Purges : (ℕ → Bool) → World vk.Store → Result ℕ × World vk.Store → Type 0
  Purges referenced w (ok n, w') =
      (n ≡ length (due w.committed))
      × (any_referenced referenced (due w.committed) ≡ false)
      × IsPurged (due w.committed) (m.others w.committed) w'.committed
  Purges referenced w (err e, w') =
      (any_referenced referenced (due w.committed) ≡ true)
      × (e ≡ server_error)
      × (w'.committed ≡ m.others w.committed)

  -- The purge deletes exactly the accounts that were unverified and past the window when it read them,
  -- with their verification tokens and sessions and with a log entry each, also those that were verified
  -- since; it answers their number. It deletes nothing if a row of the support tables names one of them.
  pub purge_unverified_accounts-Purges :
      (referenced : ℕ → Bool) (w : World vk.Store)
      → Purges referenced w (purge_unverified_accounts vk l c s m referenced w)
  unfolding purge_unverified_accounts find_purge_candidates ◌>>=◌
  purge_unverified_accounts-Purges referenced w =
      let each =
        purge_each-PurgesEach referenced (due w.committed)
          (record w { db = m.others w.committed; committed = m.others w.committed }) in
      ground (arith, each)

  contains-Member :
      (u : User) (us : List User) → Member u us → contains u.id (ids_of_users us) ≡ true
  contains-Member u [] h = absurd h
  contains-Member u (x ∷ us) (inl e) = ground (arith, ap (λ (y : User). y.id) e)
  contains-Member u (x ∷ us) (inr h) = ground (arith, contains-Member u us h)

  none_due :
      (us rows : List User)
      → ((u : User) → Member u rows → is_purge_candidate cutoff u ≡ true → Member u us)
      → keep (is_purge_candidate cutoff) (spared (λ (u : User). u.id) us rows) ≡ []
  none_due us [] h = refl
  none_due us (u ∷ rows) h = elim (Bool-cases (contains u.id (ids_of_users us))) [
    | inl e ↦ rw e (none_due us rows (λ x n. h x (inr n)))
    | inr e ↦ elim (Bool-cases (is_purge_candidate cutoff u)) [
      | inl k ↦ absurd (ground (arith, e, contains-Member u us (h u (inl refl) k)))
      | inr k ↦ rw (e, k) (none_due us rows (λ x n. h x (inr n)))
    ]
  ]

  -- After a purge that ran alone no account is due: at the same time there is nothing left to purge.
  pub purge_unverified_accounts-due :
      (referenced : ℕ → Bool) (w w' : World vk.Store) (n : ℕ)
      → purge_unverified_accounts vk l c s m referenced w ≡ (ok n, w')
      → m.others w.committed ≡ w.committed
      → due w'.committed ≡ []
  purge_unverified_accounts-due referenced w w' n done alone =
      let (count, free, (users, tokens, ended, log)) =
        rw done at (purge_unverified_accounts-Purges referenced w) in
      let gone : w'.committed.users
          ≡ spared (λ (u : User). u.id) (due w.committed) w.committed.users =
        rw alone at users in
      ap (keep (is_purge_candidate cutoff)) gone
      ∙ none_due (due w.committed) w.committed.users
          (λ u there k. (Member-keep (is_purge_candidate cutoff) u w.committed.users).1 (there, k))
