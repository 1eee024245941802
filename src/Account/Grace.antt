-- ===== src/Account/Grace.antt =====
-- A deactivated account that comes back.
use customer_portal.Prelude.{
  ℕ, ◌-◌, ◌<◌, String, Bool, true, ◌&&◌, ◌≡◌, Option, [], ◌∷◌, arith, find_row, update_rows, ◌==◌,
  some, none, find_row_and, false, ◌++◌, find_row-update_rows, find_row-true, refl,
}
use customer_portal.Valkey.{Valkey}
use customer_portal.Users.Models.{active, deactivated, Db, User}
use customer_portal.Users.World.{World, Result, ok, err, Settings, Libraries, Moment, ◌>>=◌}
use customer_portal.Users.Repository.{get_by_id}
use customer_portal.Users.Cache.{set_revoke_before}
use customer_portal.Account.{
  is_deactivated, reactivation_grace_period, may_deactivate, deactivate_set, may_reactivate,
  deactivate_if_not_already, reactivate_if_within_grace, update_user, create_audit_log_entry,
  audit_reactivated, reactivate_account, deactivate_account, reactivate_set,
}

module _ (vk : Valkey) (l : Libraries) (s : Settings) where
  abbrev Deactivates : Moment → ℕ → Db → Result (Option ℕ) × World vk.Store → Type 0
  Deactivates m user d (err e, w') = Unit
  Deactivates m user d (ok at_, w') =
      w'.committed.users
      ≡ update_rows (λ (u : User). u.id == user && may_deactivate u) (deactivate_set m.db_now)
          (m.others d).users

  -- The account is committed as active, and otherwise as `u`, with the entry.
  abbrev pub Returns : ℕ → User → Db → Result Bool × World vk.Store → Type 0
  Returns user u d (x, w') =
      (x ≡ ok true)
      × (find_row (λ (u : User). u.id == user) w'.committed.users
          ≡ some (record u { status = active; deactivated_at = none }))
      × (w'.committed.account_audit
          ≡ d.account_audit
            ++ record { user_id = user; event = "reactivated"; actor = "self"; reason = none } ∷ [])

  deactivate_account-Deactivates :
      (m : Moment) (user : ℕ) (password : Option String) (w : World vk.Store)
      → Deactivates m user w.committed (deactivate_account vk l s m user password w)
  unfolding deactivate_account get_by_id deactivate_if_not_already update_user
      create_audit_log_entry set_revoke_before ◌>>=◌
  deactivate_account-Deactivates m user password w = ground arith

  -- The reactivating statement, where the row with the id may be reactivated.
  reactivate_account-row :
      (m : Moment) (user : ℕ) (v : User) (w : World vk.Store)
      → find_row (λ (u : User). u.id == user) w.committed.users ≡ some v
      → may_reactivate (m.utc_now - reactivation_grace_period) v ≡ true
      → Returns user v w.committed (reactivate_account m user (record w { db = w.committed }))
  unfolding reactivate_account reactivate_if_within_grace update_user audit_reactivated
      create_audit_log_entry ◌>>=◌
  reactivate_account-row m user v w found may = ground (
    arith,
    found,
    may,
    find_row_and (λ (u : User). u.id == user)
        (may_reactivate (m.utc_now - reactivation_grace_period)) w.committed.users v found may,
    find_row-update_rows (λ (u : User). u.id == user)
        (λ (u : User). u.id == user && may_reactivate (m.utc_now - reactivation_grace_period) u)
        reactivate_set w.committed.users (λ u. refl),
    find_row-true (λ (u : User). u.id == user) w.committed.users v found,
  )

  -- A deactivation commits the account as deactivated, and a reactivation of it less than 30 days later,
  -- from the database that the deactivation left, answers that it was reactivated, and commits the account
  -- active again and as it was otherwise, with one audit entry. The account is the row of its id, with a
  -- verified address and not deactivated, where the deactivation writes.
  pub reactivate_account-deactivate_account :
      (m m2 : Moment) (user : ℕ) (password : Option String) (at_ : Option ℕ) (u : User)
      (w w' : World vk.Store)
      → deactivate_account vk l s m user password w ≡ (ok at_, w')
      → find_row (λ (u : User). u.id == user) (m.others w.committed).users ≡ some u
      → u.email_verified ≡ true
      → is_deactivated u.status ≡ false
      → m2.utc_now - reactivation_grace_period < m.db_now
      → (find_row (λ (u : User). u.id == user) w'.committed.users
          ≡ some (record u { status = deactivated; deactivated_at = some m.db_now }))
        × Returns user u w'.committed (reactivate_account m2 user (record w' { db = w'.committed }))
  reactivate_account-deactivate_account m m2 user password at_ u w w' done row verified live early =
      let rows = rw done at (deactivate_account-Deactivates m user password w) in
      let gone : find_row (λ (u : User). u.id == user) w'.committed.users
          ≡ some (deactivate_set m.db_now u) =
        rw rows (
          ground (
            arith,
            row,
            verified,
            live,
            find_row-update_rows (λ (u : User). u.id == user)
                (λ (u : User). u.id == user && may_deactivate u) (deactivate_set m.db_now)
                (m.others w.committed).users (λ u. refl),
            find_row-true (λ (u : User). u.id == user) (m.others w.committed).users u row,
          )) in
      (
        gone,
        reactivate_account-row m2 user (deactivate_set m.db_now u) w' gone (ground (arith, early)),
      )
