-- ===== src/Account.antt =====
-- The account module (app/modules/account): deactivation, and reactivation within 30 days, on the
-- users table.
pub mod Grace
use customer_portal.Prelude.{
  ℕ, ◌-◌, String, Bool, true, false, not, ◌&&◌, Option, none, some, [], ◌∷◌, ◌++◌, is_some, ltb,
  ◌==◌, find_row, update_rows, if◌then◌else◌,
}
use customer_portal.Valkey.{Valkey}
use customer_portal.Users.Models.{
  User, UserStatus, active, deactivated, invalid_password, already_deactivated,
}
use customer_portal.Users.World.{
  Action, Settings, Libraries, Moment, days, ◌>>=◌, ◌>>◌, pure, or_raise, raise_if, interleave,
  modify_db, commit, in_session, ok,
}
use customer_portal.Users.Repository.{get_by_id}
use customer_portal.Users.Cache.{set_revoke_before}

abbrev pub reactivation_grace_period : ℕ
reactivation_grace_period = days 30

abbrev pub is_deactivated : UserStatus → Bool
is_deactivated deactivated = true
is_deactivated _ = false

-- The WHERE clauses, but for the id, and the SET clauses of app/modules/account/repository.py.
abbrev pub may_deactivate : User → Bool
may_deactivate u = u.email_verified && not (is_deactivated u.status)

abbrev pub deactivate_set : ℕ → User → User
deactivate_set now u = record u { status = deactivated; deactivated_at = some now }

-- `deactivated_at > cutoff`; NULL is not.
abbrev pub may_reactivate : ℕ → User → Bool
may_reactivate cutoff u =
    is_deactivated u.status && elim u.deactivated_at [ none ↦ false | some d ↦ ltb cutoff d ]

abbrev pub reactivate_set : User → User
reactivate_set u = record u { status = active; deactivated_at = none }

-- `password or ""`
abbrev pub or_empty : Option String → String
or_empty none = ""
or_empty (some password) = password

module _ {Store : Type 0} where
  -- UPDATE users SET … WHERE id = … AND … RETURNING …, of which the callers use what they need.
  unfoldable pub update_user : ℕ → (User → Bool) → (User → User) → Action Store (Option User)
  update_user id where_ set_ w = elim (find_row (λ (u : User). u.id == id && where_ u) w.db.users) [
    | none ↦ (ok none, w)
    | some u ↦ (
      ok (some (set_ u)),
      record w {
        db = record w.db {
          users = update_rows (λ (u : User). u.id == id && where_ u) set_ w.db.users;
        };
      },
    )
  ]

  unfoldable pub deactivate_if_not_already : ℕ → ℕ → Action Store (Option User)
  unfolding update_user
  deactivate_if_not_already now id = update_user id may_deactivate (deactivate_set now)

  unfoldable pub reactivate_if_within_grace : ℕ → ℕ → Action Store (Option User)
  unfolding update_user
  reactivate_if_within_grace cutoff id = update_user id (may_reactivate cutoff) reactivate_set

  unfoldable pub create_audit_log_entry : ℕ → String → Action Store (Unit {0})
  unfolding modify_db
  create_audit_log_entry user event = modify_db λ d. record d {
    account_audit =
        d.account_audit
        ++ record { user_id = user; event = event; actor = "self"; reason = none } ∷ [];
  }

  unfoldable pub audit_reactivated : ℕ → Action Store (Unit {0})
  audit_reactivated user = do create_audit_log_entry user "reactivated"; commit

  -- `reactivate_account`: whether this call reactivated the account.
  unfoldable pub reactivate_account : Moment → ℕ → Action Store Bool
  reactivate_account m user = do
    reactivated ← reactivate_if_within_grace (m.utc_now - reactivation_grace_period) user
    if is_some reactivated then audit_reactivated user else pure tt
    pure (is_some reactivated)

module _ (vk : Valkey) (l : Libraries) (s : Settings) (m : Moment) where
  -- `deactivate_account`, with the password of the request; it answers `deactivated_at`.
  unfoldable pub deactivate_account : ℕ → Option String → Action vk.Store (Option ℕ)
  deactivate_account user password = in_session do
    found ← get_by_id user
    u ← or_raise found invalid_password
    raise_if (not (l.verify_password (or_empty password) u.hashed_password)) invalid_password
    interleave m.others
    updated ← deactivate_if_not_already m.db_now user
    v ← or_raise updated already_deactivated
    create_audit_log_entry user "deactivated"
    commit
    set_revoke_before vk m.utc_now user s.refresh_token_ttl_seconds
    pure v.deactivated_at
