-- ===== src/AdminUsers/Update.antt =====
-- Changes of an account's fields by an administrator.
use mathlib.Core.List.{append-nil, append_assoc}
use customer_portal.Prelude.{
  ℕ, String, true, false, ◌≡◌, ◌⊎◌, inl, inr, Option, none, some, List, [], ◌∷◌, ◌++◌, ◌==◌, arith,
  find_row, update_rows, OnRow, Option-cases, if◌then◌else◌, ap, ◌&&◌, sym, ◌∙◌,
}
use customer_portal.Valkey.{Valkey}
use customer_portal.Administration.Models.{AdminAuditLog}
use customer_portal.Users.Models.{
  Db, User, not_found, precondition_required, precondition_failed, immutable_field,
  validation_failed,
}
use customer_portal.Users.World.{
  World, Result, ok, err, Settings, Libraries, Collaborators, Moment, ◌>>=◌,
}
use customer_portal.Account.{update_user as update_row}
use customer_portal.Roles.Repository.{set_tables, admin_entry, create_admin_audit_log_entry}
use customer_portal.Roles.{is_empty}
use customer_portal.AdminUsers.Repository.{
  EditableField, get_field, set_fields, get_with_roles, update_fields,
  create_admin_audit_log_field_change,
}
use customer_portal.AdminUsers.Payloads.{
  Caller, Body, UpdateUserRequest, Texts, UserRead, field_name, any_immutable, matches,
}
use customer_portal.AdminUsers.{etag, audit_changes, write_changes, check_update, update_user}

abbrev pub first_entry : Caller → User → String → EditableField → Option String → AdminAuditLog
first_entry by old reason field value =
    record (admin_entry "user_field_updated" by.actor_id (some old.id) by.request_id) {
      field = some (field_name field);
      old_value = get_field field old;
      new_value = value;
      reason = some reason;
    }

abbrev pub change_entries :
    Caller → User → String → List (EditableField × Option String) → List AdminAuditLog
change_entries by old reason [] = []
change_entries by old reason ((field, value) ∷ fields) =
    first_entry by old reason field value ∷ change_entries by old reason fields

abbrev pub add_entries : List AdminAuditLog → Db → Db
add_entries es = set_tables λ t. record t { admin_audit = t.admin_audit ++ es }

module _ (vk : Valkey) (l : Libraries) (x : Texts) (c : Collaborators) (s : Settings)
    (m : Moment) where
  abbrev with_log : World vk.Store → List AdminAuditLog → Result (Unit {0}) × World vk.Store
  with_log w es = (ok tt, record w { db = set_tables (λ t. record t { admin_audit = es }) w.db })

  audit_changes-adds :
      (by : Caller) (old : User) (reason : String) (fields : List (EditableField × Option String))
      (w : World vk.Store)
      → audit_changes vk l x c s m by old.id old reason fields w
        ≡ (ok tt, record w { db = add_entries (change_entries by old reason fields) w.db })
  unfolding audit_changes create_admin_audit_log_field_change create_admin_audit_log_entry ◌>>=◌
  audit_changes-adds by old reason [] w =
      ap (with_log w) (sym (append-nil w.db.administration.admin_audit))
  audit_changes-adds by old reason ((field, value) ∷ fields) w =
      let e = first_entry by old reason field value in
      audit_changes-adds by old reason fields (record w { db = add_entries (e ∷ []) w.db })
      ∙ ap (with_log w) (
          append_assoc w.db.administration.admin_audit (e ∷ [])
            (change_entries by old reason fields))

  -- The fields and their entries.
  abbrev pub with_changes : Caller → User → UpdateUserRequest → Db → Db
  with_changes by old p d = add_entries (change_entries by old p.reason p.fields) (record d {
    users = update_rows (λ (u : User). u.id == old.id && true) (set_fields p.fields) d.users;
  })

  abbrev Writes :
      Caller → User → UpdateUserRequest → World vk.Store → Result User × World vk.Store → Type 0
  Writes by old p w (ok u, w') = w'.committed ≡ with_changes by old p (m.others w.db)
  Writes by old p w (err e, w') = (e ≡ not_found) × (w'.committed ≡ m.others w.committed)

  write_changes-Writes :
      (by : Caller) (old : User) (p : UpdateUserRequest) (w : World vk.Store)
      → Writes by old p w (write_changes vk l x c s m by old p w)
  unfolding write_changes update_fields update_row ◌>>=◌
  write_changes-Writes by old p w =
      let d = record (m.others w.db) {
        users =
            update_rows (λ (u : User). u.id == old.id && true) (set_fields p.fields)
              (m.others w.db).users;
      } in
      let entries =
        audit_changes-adds by old p.reason p.fields
          (record w { db = d; committed = m.others w.committed }) in
      ground (arith, entries)

  -- The request is for the fields that its sender saw, and pydantic accepts it.
  abbrev Checks : User → Option String → Body → UpdateUserRequest → Type 0
  Checks u if_match body p =
      (matches if_match (etag vk l x c s m u) ≡ true)
      × (any_immutable body.names ≡ false)
      × (body.validated ≡ some p)

  abbrev pub Updates :
      Caller
      → ℕ
      → Body
      → Option String
      → World vk.Store
      → Result (UserRead × String) × World vk.Store
      → Type 0
  Updates by target body if_match w (ok answer, w') =
      OnRow
        (λ u.
          OnRow
            (λ p.
              Checks u if_match body p
              × (if is_empty p.fields
                  then w'.committed ≡ w.committed
                  else w'.committed ≡ with_changes by u p (m.others w.committed)))
            body.validated)
        (find_row (λ (u : User). u.id == target) w.committed.users)
  Updates by target body if_match w (err e, w') =
      ((w'.committed ≡ w.committed) ⊎ (w'.committed ≡ m.others w.committed))
      × ((e ≡ not_found)
          ⊎ ((e ≡ precondition_required) × (if_match ≡ none))
          ⊎ ((e ≡ precondition_failed)
              × OnRow (λ u. matches if_match (etag vk l x c s m u) ≡ false)
                  (find_row (λ (u : User). u.id == target) w.committed.users))
          ⊎ ((e ≡ immutable_field) × (any_immutable body.names ≡ true))
          ⊎ ((e ≡ validation_failed "body") × (body.validated ≡ none)))

  -- An update is written only if its If-Match is a star or the ETag of the account as it was read, and
  -- the body is valid and names no immutable field; it commits exactly the fields of the request and an
  -- audit entry for each with the old value and the new, or nothing for a body without fields. No error
  -- changes anything, and one other than `not_found` tells which check failed.
  pub update_user-Updates :
      (by : Caller) (target : ℕ) (body : Body) (if_match : Option String) (w : World vk.Store)
      → Updates by target body if_match w (update_user vk l x c s m by target body if_match w)
  unfolding update_user check_update get_with_roles ◌>>=◌
  update_user-Updates by target body if_match w =
      elim (Option-cases (find_row (λ (u : User). u.id == target) w.committed.users)) [
        | inl e ↦ ground (arith, e)
        | inr (u, e) ↦ elim (Option-cases body.validated) [
          | inl f ↦ ground (arith, e, f)
          | inr (p, f) ↦
              ground (arith, e, f, write_changes-Writes by u p (record w { db = w.committed }))
        ]
      ]
