-- ===== src/Roles/Outcome.antt =====
-- What replace_user_roles commits, and what it leaves as it was.
use customer_portal.Support.Models.{server_error}
use customer_portal.Roles.Rows.{is_subset, scopes_of_roles}
use customer_portal.Session.{after}
use customer_portal.Roles.Steps.{
  load_requested-Loads, MayReplace, Loads, Writes, requested_roles, replace_loaded-Writes,
  add_entry, denial, IsUnaskable, loses_admin, IsSole, admin_roles,
}
use customer_portal.Administration.Models.{Role}
use customer_portal.Roles.{replace_user_roles, Replacement, replace_loaded}
use customer_portal.Valkey.{Valkey}
use customer_portal.Users.World.{Moment, World, Result, ok, err, Settings, ◌>>=◌}
use customer_portal.Users.Models.{server_error, privilege_escalation, last_admin}
use customer_portal.Prelude.{List, ◌≡◌, inl, inr, String, ◌⊎◌, false, true}

module _ (vk : Valkey) (s : Settings) (m : Moment) where
  abbrev pub Replaces :
      Replacement → World vk.Store → Result (List String) × World vk.Store → Type 0
  Replaces r w (ok names, w') =
      let before = record w { db = w.committed } in
      MayReplace r w.committed
      × Writes vk s m r (requested_roles r w.committed) before (ok names, w')
  Replaces r w (err e, w') =
      (w'.store ≡ w.store)
      × ((IsUnaskable r w.committed e × (w'.committed ≡ w.committed))
          ⊎ ((e ≡ privilege_escalation)
              × (is_subset (scopes_of_roles (requested_roles r w.committed)) r.actor_scopes ≡ false)
              × (w'.committed ≡ add_entry (denial r (requested_roles r w.committed)) w.committed))
          ⊎ ((e ≡ last_admin)
              × (loses_admin r (requested_roles r w.committed) w.committed ≡ true)
              × IsSole r.target_id (m.others w.committed) (admin_roles (m.others w.committed))
              × (w'.committed ≡ m.others w.committed))
          ⊎ ((e ≡ server_error) × (w'.committed ≡ m.others w.committed)))

  abbrev closed : {A : Type 0} → Result A × World vk.Store → Result A × World vk.Store
  closed (x, w') = (x, record w' { db = w'.committed })

  after_load :
      (r : Replacement) (w w' : World vk.Store) (x : Result (List Role))
      → Loads vk s r (record w { db = w.committed }) (x, w')
      → Replaces r w (closed (after x (replace_loaded vk s m r) w'))
  after_load r w w' (ok roles) (same, asked, may) =
      rw (same, asked)
        (wrote _ (
          replace_loaded-Writes vk s m r (requested_roles r w.committed)
            (record w { db = w.committed })))
    where
      wrote :
          (y : Result (List String) × World vk.Store)
          → Writes vk s m r (requested_roles r w.committed) (record w { db = w.committed }) y
          → Replaces r w (closed y)
      wrote (ok names, w2) h = (may, h)
      wrote (err e, w2) (st, c, inl (k, loses, sole)) = (st, inr (inr (inl (k, loses, sole, c))))
      wrote (err e, w2) (st, c, inr k) = (st, inr (inr (inr (k, c))))
  after_load r w w' (err e) (st, inl c) = (st, inl c)
  after_load r w w' (err e) (st, inr c) = (st, inr (inl c))

  -- A replacement commits exactly the roles that the request names, with one audit entry, and expires the
  -- permissions in the target's tokens; it is answered with the names of those roles, which the request
  -- may ask for, and takes the role admin only from a user besides whom another active user holds it.
  -- A request that raises changes no role and no expiry, and the error tells why: the target is the
  -- caller, the names are none or repeated, a name is unknown, the roles carry a scope that the caller
  -- does not have (and then exactly one entry of high severity is committed), or the target would lose
  -- the role admin and no other active user holds it; the write itself may fail with a server error.
  pub replace_user_roles-Replaces :
      (r : Replacement) (w : World vk.Store) → Replaces r w (replace_user_roles vk s m r w)
  unfolding replace_user_roles ◌>>=◌
  replace_user_roles-Replaces r w =
      after_load r w _ _ (load_requested-Loads vk s r (record w { db = w.committed }))
