-- ===== src/Administration/History.antt =====
-- Runs of the requests that administrators send: there is always an active administrator.
use customer_portal.Roles.Rows.{new_grants, role_ids_of}
use customer_portal.Administration.Models.{Role}
use customer_portal.Prelude.{
  ℕ, String, true, ◌≡◌, sym, subst, ◌∙◌, inl, inr, List, [], ◌∷◌, ◌++◌, arith, All, Member-append,
}
use customer_portal.Valkey.{Valkey}
use customer_portal.Administration.Admins.{HasAdmin}
use customer_portal.Administration.Kept.{with_roles-HasAdmin, with_deactivation-HasAdmin}
use customer_portal.Users.Models.{Db, User}
use customer_portal.Users.World.{World, Result, ok, err, Settings, Libraries, Collaborators, Moment}
use customer_portal.Roles.Repository.{is_active_user}
use customer_portal.Roles.Scopes.{RoleKeys}
use customer_portal.Roles.{Replacement, replace_user_roles}
use customer_portal.Roles.Outcome.{Replaces, replace_user_roles-Replaces}
use customer_portal.AdminUsers.{create_user, deactivate_user}
use customer_portal.AdminUsers.Payloads.{Caller, Drawn, CreateUserRequest, UserRead, Texts}
use customer_portal.AdminUsers.Deactivation.{Deactivates, deactivate_user-Deactivates}
use customer_portal.AdminUsers.Creation.{
  Creates, create_user-Creates, granted_roles, with_user, new_user,
}

pub data Request : Type 0 where
  replacing : Moment → Replacement → Request
  deactivating : Moment → Caller → ℕ → String → Request
  creating : Moment → Caller → Drawn → CreateUserRequest → Request

-- No other session commits while a request is served.
abbrev pub IsAlone : Request → Type 0
IsAlone (replacing m q) = (d : Db) → m.others d ≡ d
IsAlone (deactivating m by target reason) = (d : Db) → m.others d ≡ d
IsAlone (creating m by drawn p) = (d : Db) → m.others d ≡ d

-- The roles table has its keys, and there is an active administrator.
abbrev pub IsManned : Db → Type 0
IsManned d = RoleKeys d.administration.roles × HasAdmin d

is_active_user-append :
    (k : ℕ) (users : List User) (u : User)
    → is_active_user k users ≡ true
    → is_active_user k (users ++ u ∷ []) ≡ true
is_active_user-append k [] u h = ground arith
is_active_user-append k (v ∷ users) u h = ground (arith, is_active_user-append k users u)

module _ (vk : Valkey) (l : Libraries) (x : Texts) (c : Collaborators) (s : Settings) where
  unfoldable pub serve : Request → World vk.Store → World vk.Store
  serve (replacing m q) w = (replace_user_roles vk s m q w).1
  serve (deactivating m by target reason) w = (deactivate_user vk l x c s m by target reason w).1
  serve (creating m by drawn p) w = (create_user vk l x c s m by drawn p w).1

  unfoldable pub serve_all : List Request → World vk.Store → World vk.Store
  serve_all [] w = w
  serve_all (r ∷ rs) w = serve_all rs (serve r w)

  replaced :
      (m : Moment) (q : Replacement) (w w' : World vk.Store) (a : Result (List String))
      → ((d : Db) → m.others d ≡ d)
      → IsManned w.committed
      → Replaces vk s m q w (a, w')
      → IsManned w'.committed
  replaced m q w w' (ok names) alone (keys, has) (may, (guarded, n, done, st)) =
      subst IsManned (sym done) (
        rw (alone w.committed)
          (keys, with_roles-HasAdmin m q w.committed keys (rw (alone w.committed) at guarded) has))
  replaced m q w w' (err e) alone manned (st, inl (k, d)) = subst IsManned (sym d) manned
  replaced m q w w' (err e) alone manned (st, inr (inl (k, no_, d))) = subst IsManned (sym d) manned
  replaced m q w w' (err e) alone manned (st, inr (inr (inl (k, loses, sole, d)))) =
      subst IsManned (sym (d ∙ alone w.committed)) manned
  replaced m q w w' (err e) alone manned (st, inr (inr (inr (k, d)))) =
      subst IsManned (sym (d ∙ alone w.committed)) manned

  deactivated :
      (m : Moment) (by : Caller) (target : ℕ) (reason : String) (w w' : World vk.Store)
      (a : Result UserRead)
      → ((d : Db) → m.others d ≡ d)
      → IsManned w.committed
      → Deactivates vk l x c s m by target reason w (a, w')
      → IsManned w'.committed
  deactivated m by target reason w w' (ok u) alone (keys, has) (other, guarded, found, done, st) =
      subst IsManned (sym done) (
        rw (alone w.committed) (
          keys,
          with_deactivation-HasAdmin x m by target reason w.committed keys
              (rw (alone w.committed) at guarded) has,
        ))
  deactivated m by target reason w w' (err e) alone manned (st, inl (k, n, d)) =
      subst IsManned (sym d) manned
  deactivated m by target reason w w' (err e) alone manned (st, inr (inl (k, n, d))) =
      subst IsManned (sym d) manned
  deactivated m by target reason w w' (err e) alone manned (st, inr (inr (inl (k, sole, n, d)))) =
      subst IsManned (sym (d ∙ alone w.committed)) manned
  deactivated m by target reason w w' (err e) alone manned (st, inr (inr (inr (k, n, d)))) =
      subst IsManned (sym (d ∙ alone w.committed)) manned

  with_user-IsManned :
      (m : Moment) (by : Caller) (drawn : Drawn) (p : CreateUserRequest) (roles : List Role)
      (d : Db)
      → IsManned d
      → IsManned (with_user vk l x c s m by drawn p roles d)
  with_user-IsManned m by drawn p roles d (keys, (r, g, admin, (row, role, active))) = (
    keys,
    (
      r,
      g,
      admin,
      (
        (Member-append g d.administration.user_roles
              (new_grants m.db_now drawn.user_id (role_ids_of roles))).1
            (inl row),
        role,
        is_active_user-append g.user_id d.users (new_user vk l x c s m drawn p) active,
      ),
    ),
  )

  created :
      (m : Moment) (by : Caller) (drawn : Drawn) (p : CreateUserRequest) (w w' : World vk.Store)
      (a : Result (UserRead × String))
      → ((d : Db) → m.others d ≡ d)
      → IsManned w.committed
      → Creates vk l x c s m by drawn p w (a, w')
      → IsManned w'.committed
  created m by drawn p w w' (ok u) alone manned (may, free, done, sent) =
      subst IsManned (sym done) (
        rw (alone w.committed)
          (with_user-IsManned m by drawn p (granted_roles p w.committed) w.committed manned))
  created m by drawn p w w' (err e) alone manned (sent, inl (k, n, d)) =
      subst IsManned (sym d) manned
  created m by drawn p w w' (err e) alone manned (sent, inr (k, n, d)) =
      subst IsManned (sym (d ∙ alone w.committed)) manned

  serve-IsManned :
      (r : Request) (w : World vk.Store)
      → IsAlone r
      → IsManned w.committed
      → IsManned (serve r w).committed
  unfolding serve
  serve-IsManned (replacing m q) w alone manned =
      replaced m q w _ _ alone manned (replace_user_roles-Replaces vk s m q w)
  serve-IsManned (deactivating m by target reason) w alone manned =
      deactivated m by target reason w _ _ alone manned
        (deactivate_user-Deactivates vk l x c s m by target reason w)
  serve-IsManned (creating m by drawn p) w alone manned =
      created m by drawn p w _ _ alone manned (create_user-Creates vk l x c s m by drawn p w)

  -- If there is an active administrator, then there is one after any run of role replacements,
  -- deactivations by administrators and creations, with any answers, served one after another with no
  -- commit of another session during a request. The keys of the table roles hold.
  pub serve_all-HasAdmin :
      (rs : List Request) (w : World vk.Store)
      → All IsAlone rs
      → RoleKeys w.committed.administration.roles
      → HasAdmin w.committed
      → HasAdmin (serve_all rs w).committed
  unfolding serve_all
  serve_all-HasAdmin [] w alone keys has = has
  serve_all-HasAdmin (r ∷ rs) w (alone, rest) keys has =
      let (keys2, has2) = serve-IsManned r w alone (keys, has) in
      serve_all-HasAdmin rs (serve r w) rest keys2 has2
