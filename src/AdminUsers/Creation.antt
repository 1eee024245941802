-- ===== src/AdminUsers/Creation.antt =====
-- Accounts that an administrator creates.
use text.Mathlib.Text.{◌==◌ as str_eq}
use customer_portal.Prelude.{
  ℕ, ◌+◌, String, Bool, true, false, ◌≡◌, ◌⊎◌, none, some, List, [], ◌∷◌, ◌++◌, ◌==◌, is_some,
  arith, find_row, keep, sorted_texts, if◌then◌else◌, ==_refl,
}
use customer_portal.Valkey.{Valkey}
use customer_portal.Administration.Models.{Role, InvitationToken, AdminAuditLog}
use customer_portal.Users.Models.{Db, User, privilege_escalation, email_already_registered}
use customer_portal.Users.World.{
  World, Result, ok, err, attempt, Settings, Libraries, Collaborators, Moment, invitation, hours,
  ◌>>=◌,
}
use customer_portal.Roles.Repository.{
  named_in, names_of, role_ids_of, scopes_of_roles, is_subset, admin_entry, get_by_names,
  create_admin_audit_log_entry,
}
use customer_portal.Roles.Steps.{add_entry}
use customer_portal.Roles.{resolve_role_ids_for_grant, deny_escalation}
use customer_portal.AdminUsers.Repository.{
  invited_user, add_user, set_invitation_tokens, get_with_roles, create,
  create_admin_audit_log_event, create_invitation_token,
}
use customer_portal.AdminUsers.{send, issue_invitation, create_user, create_with}
use customer_portal.AdminUsers.Payloads.{Caller, Drawn, CreateUserRequest, Texts, UserRead}

-- The roles of the request that there are.
abbrev pub granted_roles : CreateUserRequest → Db → List Role
granted_roles p d = keep (named_in p.roles) d.administration.roles

abbrev pub creation_denial : Caller → List Role → AdminAuditLog
creation_denial by roles = record (admin_entry "authz_denied" by.actor_id none by.request_id) {
  new_roles = some (sorted_texts (names_of roles));
  severity = some "high";
}

abbrev Resolves :
    {Store : Type 0}
    → Caller
    → CreateUserRequest
    → World Store
    → Result (List ℕ) × World Store
    → Type 0
Resolves by p w (ok ids, w') =
    (w' ≡ w)
    × (ids ≡ role_ids_of (granted_roles p w.db))
    × (is_subset (scopes_of_roles (granted_roles p w.db)) by.actor_scopes ≡ true)
Resolves by p w (err e, w') =
    (e ≡ privilege_escalation)
    × (is_subset (scopes_of_roles (granted_roles p w.db)) by.actor_scopes ≡ false)
    × (w'.committed ≡ add_entry (creation_denial by (granted_roles p w.db)) w.db)
    × (w'.outbox ≡ w.outbox)

resolve_role_ids_for_grant-Resolves :
    {Store : Type 0} (by : Caller) (p : CreateUserRequest) (w : World Store)
    → Resolves by p w
        (resolve_role_ids_for_grant by.actor_id by.actor_scopes p.roles by.request_id w)
unfolding resolve_role_ids_for_grant get_by_names deny_escalation create_admin_audit_log_entry ◌>>=◌
resolve_role_ids_for_grant-Resolves by p w = ground arith

is_some_append :
    (p : User → Bool) (rs : List User) (x : User)
    → p x ≡ true
    → is_some (find_row p (rs ++ x ∷ [])) ≡ true
is_some_append p [] x h = ground arith
is_some_append p (r ∷ rs) x h = ground (arith, is_some_append p rs x h)

module _ (vk : Valkey) (l : Libraries) (x : Texts) (c : Collaborators) (s : Settings)
    (m : Moment) where
  abbrev pub new_user : Drawn → CreateUserRequest → User
  new_user drawn p = invited_user m.db_now drawn.user_id (l.lower (l.strip p.email)) p.display_name

  abbrev pub new_token : Drawn → User → InvitationToken
  new_token drawn u = record {
    id = drawn.token_id;
    user_id = u.id;
    token_hash = l.sha256 drawn.raw_token;
    issued_at = m.db_now;
    expires_at = m.utc_now + hours s.invitation_token_ttl_hours;
    consumed_at = none;
  }

  abbrev pub with_user : Caller → Drawn → CreateUserRequest → List Role → Db → Db
  with_user by drawn p roles d =
      add_entry (admin_entry "user_created" by.actor_id (some drawn.user_id) by.request_id)
        (add_user m.db_now (new_user drawn p) (role_ids_of roles) d)

  abbrev pub Creates :
      Caller
      → Drawn
      → CreateUserRequest
      → World vk.Store
      → Result (UserRead × String) × World vk.Store
      → Type 0
  Creates by drawn p w (ok answer, w') =
      (is_subset (scopes_of_roles (granted_roles p w.committed)) by.actor_scopes ≡ true)
      × (find_row (λ (v : User). str_eq v.email (new_user drawn p).email)
            (m.others w.committed).users
          ≡ none)
      × (w'.committed
          ≡ set_invitation_tokens (λ ts. ts ++ new_token drawn (new_user drawn p) ∷ [])
              (with_user by drawn p (granted_roles p w.committed) (m.others w.committed)))
      × (w'.outbox ≡ (
          if c.delivers (invitation (new_user drawn p).email drawn.raw_token)
          then w.outbox ++ invitation (new_user drawn p).email drawn.raw_token ∷ []
          else w.outbox))
  Creates by drawn p w (err e, w') =
      (w'.outbox ≡ w.outbox)
      × (((e ≡ privilege_escalation)
            × (is_subset (scopes_of_roles (granted_roles p w.committed)) by.actor_scopes ≡ false)
            × (w'.committed
                ≡ add_entry (creation_denial by (granted_roles p w.committed)) w.committed))
          ⊎ ((e ≡ email_already_registered)
              × (is_some (
                    find_row (λ (v : User). str_eq v.email (new_user drawn p).email)
                      (m.others w.committed).users)
                  ≡ true)
              × (w'.committed ≡ m.others w.committed)))

  abbrev With :
      Caller
      → Drawn
      → CreateUserRequest
      → List Role
      → World vk.Store
      → Result (UserRead × String) × World vk.Store
      → Type 0
  With by drawn p roles w (ok answer, w') =
      (find_row (λ (v : User). str_eq v.email (new_user drawn p).email) (m.others w.db).users
        ≡ none)
      × (w'.committed
          ≡ set_invitation_tokens (λ ts. ts ++ new_token drawn (new_user drawn p) ∷ [])
              (with_user by drawn p roles (m.others w.db)))
      × (w'.outbox ≡ (
          if c.delivers (invitation (new_user drawn p).email drawn.raw_token)
          then w.outbox ++ invitation (new_user drawn p).email drawn.raw_token ∷ []
          else w.outbox))
  With by drawn p roles w (err e, w') =
      (w'.outbox ≡ w.outbox)
      × (e ≡ email_already_registered)
      × (is_some
            (find_row (λ (v : User). str_eq v.email (new_user drawn p).email) (m.others w.db).users)
          ≡ true)
      × (w'.committed ≡ m.others w.committed)

  create_with-With :
      (by : Caller) (drawn : Drawn) (p : CreateUserRequest) (roles : List Role) (w : World vk.Store)
      → With by drawn p roles w (create_with vk l x c s m by drawn p (role_ids_of roles) w)
  unfolding create_with create create_admin_audit_log_event create_admin_audit_log_entry
      issue_invitation send create_invitation_token get_with_roles attempt ◌>>=◌
  create_with-With by drawn p roles w =
      let found : is_some (
            find_row (λ (u : User). u.id == drawn.user_id)
              ((m.others w.db).users ++ new_user drawn p ∷ []))
          ≡ true =
        is_some_append (λ (u : User). u.id == drawn.user_id) (m.others w.db).users
          (new_user drawn p) (==_refl drawn.user_id) in
      ground (arith, found)

  -- A creation commits exactly an invited account without a password, its grants of the named roles
  -- that there are, an audit entry and an invitation token, whether or not the mail server takes the
  -- invitation; the roles carry no scope that the caller lacks, and no account has the address. The
  -- errors tell which of the two fails; they commit nothing but the entry of an escalation.
  pub create_user-Creates :
      (by : Caller) (drawn : Drawn) (p : CreateUserRequest) (w : World vk.Store)
      → Creates by drawn p w (create_user vk l x c s m by drawn p w)
  unfolding create_user ◌>>=◌
  create_user-Creates by drawn p w = ground (
    arith,
    resolve_role_ids_for_grant-Resolves by p (record w { db = w.committed }),
    create_with-With by drawn p (granted_roles p w.committed) (record w { db = w.committed }),
  )
