-- ===== src/AdminUsers/Deactivation.antt =====
-- Deactivation by an administrator.
use customer_portal.Prelude.{
  ℕ, String, Bool, true, ◌&&◌, ◌≡◌, ◌≢◌, ◌⊎◌, none, some, [], ◌∷◌, ◌++◌, ◌==◌, arith, find_row,
  update_rows, OnRow, is_some,
}
use Prim.Native.String.{◌++◌ as append}
use customer_portal.Valkey.{Valkey, instant, revoke_before_key}
use customer_portal.Users.Models.{
  not_found, Db, User, last_admin, already_deactivated, cannot_target_self,
}
use customer_portal.Users.World.{
  World, Result, ok, err, Settings, Libraries, Collaborators, Moment, ◌>>=◌,
}
use customer_portal.Users.Cache.{set_revoke_before}
use customer_portal.Account.{update_user as update_row, deactivate_set}
use customer_portal.Roles.Repository.{in_texts, is_active, list_role_names_for_user}
use customer_portal.Roles.{admin_role_name, raise_if_last_admin}
use customer_portal.Roles.Steps.{Spares, IsSole, admin_roles, raise_if_no_other_admin-Guards}
use customer_portal.AdminUsers.Repository.{
  role_names, get_with_roles, deactivate_if_active, create_account_lifecycle_audit_log_entry,
}
use customer_portal.AdminUsers.{write_deactivation, deactivate_user}
use customer_portal.AdminUsers.Payloads.{Caller, Texts, UserRead}

abbrev pub is_active_row : ℕ → User → Bool
is_active_row id u = u.id == id && is_active u.status

-- A user who holds the role admin is not the only active one.
abbrev pub NotLast : ℕ → Db → Type 0
NotLast user d = in_texts admin_role_name (role_names d user) ≡ true → Spares user d (admin_roles d)

abbrev Checks : {Store : Type 0} → ℕ → World Store → Result (Unit {0}) × World Store → Type 0
Checks user w (ok x, w') = (w' ≡ w) × NotLast user w.db
Checks user w (err e, w') =
    (w' ≡ w)
    × (e ≡ last_admin)
    × (in_texts admin_role_name (role_names w.db user) ≡ true)
    × IsSole user w.db (admin_roles w.db)

raise_if_last_admin-Checks :
    {Store : Type 0} (user : ℕ) (w : World Store) → Checks user w (raise_if_last_admin user w)
unfolding raise_if_last_admin list_role_names_for_user ◌>>=◌
raise_if_last_admin-Checks user w = ground (arith, raise_if_no_other_admin-Guards user w)

-- The new status, and the entry.
abbrev pub with_deactivation : Texts → Moment → Caller → ℕ → String → Db → Db
with_deactivation x m by target reason d = record d {
  users = update_rows (is_active_row target) (deactivate_set m.db_now) d.users;
  account_audit =
      d.account_audit
      ++ record {
        user_id = target;
        event = "deactivated";
        actor = append "admin:" (x.uuid_text by.actor_id);
        reason = some reason;
      }
        ∷ [];
}

module _ (vk : Valkey) (l : Libraries) (x : Texts) (c : Collaborators) (s : Settings)
    (m : Moment) where
  abbrev Writes : Caller → ℕ → String → World vk.Store → Result User × World vk.Store → Type 0
  Writes by target reason w (ok u, w') =
      NotLast target w.db
      × (OnRow (λ v. u ≡ deactivate_set m.db_now v) (find_row (is_active_row target) w.db.users))
      × (w'.committed ≡ with_deactivation x m by target reason w.db)
      × (w'.store ≡ w.store)
  Writes by target reason w (err e, w') =
      (w'.committed ≡ w.committed)
      × (w'.store ≡ w.store)
      × (((e ≡ last_admin)
            × (in_texts admin_role_name (role_names w.db target) ≡ true)
            × IsSole target w.db (admin_roles w.db))
          ⊎ ((e ≡ already_deactivated) × (find_row (is_active_row target) w.db.users ≡ none)))

  write_deactivation-Writes :
      (by : Caller) (target : ℕ) (reason : String) (w : World vk.Store)
      → Writes by target reason w (write_deactivation vk l x c s m by target reason w)
  unfolding write_deactivation deactivate_if_active update_row
      create_account_lifecycle_audit_log_entry ◌>>=◌
  write_deactivation-Writes by target reason w = ground (arith, raise_if_last_admin-Checks target w)

  abbrev pub Deactivates :
      Caller → ℕ → String → World vk.Store → Result UserRead × World vk.Store → Type 0
  Deactivates by target reason w (ok u, w') =
      (target ≢ by.actor_id)
      × NotLast target (m.others w.committed)
      × (is_some (find_row (is_active_row target) (m.others w.committed).users) ≡ true)
      × (w'.committed ≡ with_deactivation x m by target reason (m.others w.committed))
      × (w'.store
          ≡ vk.set_ex (revoke_before_key target) (instant m.utc_now) s.refresh_token_ttl_seconds
              w.store)
  Deactivates by target reason w (err e, w') =
      (w'.store ≡ w.store)
      × (((target ≡ by.actor_id) × (e ≡ cannot_target_self) × (w'.committed ≡ w.committed))
          ⊎ ((find_row (λ (u : User). u.id == target) w.committed.users ≡ none)
              × (e ≡ not_found)
              × (w'.committed ≡ w.committed))
          ⊎ ((in_texts admin_role_name (role_names (m.others w.committed) target) ≡ true)
              × IsSole target (m.others w.committed) (admin_roles (m.others w.committed))
              × (e ≡ last_admin)
              × (w'.committed ≡ m.others w.committed))
          ⊎ ((find_row (is_active_row target) (m.others w.committed).users ≡ none)
              × (e ≡ already_deactivated)
              × (w'.committed ≡ m.others w.committed)))

  -- A deactivation by an administrator commits exactly the new status and one audit entry with the
  -- administrator and the reason, and ends the sessions of the account, which is another's, active, and
  -- not the last administrator's. Each error tells which of these fails, and changes nothing: the target
  -- is the caller, is not there, is not active, or holds the role admin while no other active user does.
  pub deactivate_user-Deactivates :
      (by : Caller) (target : ℕ) (reason : String) (w : World vk.Store)
      → Deactivates by target reason w (deactivate_user vk l x c s m by target reason w)
  unfolding deactivate_user get_with_roles set_revoke_before ◌>>=◌
  deactivate_user-Deactivates by target reason w =
      let w2 : World vk.Store = record w {
        db = m.others w.committed;
        committed = m.others w.committed;
      } in
      ground (arith, write_deactivation-Writes by target reason w2)
