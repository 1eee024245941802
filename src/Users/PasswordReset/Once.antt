-- ===== src/Users/PasswordReset/Once.antt =====
-- What a confirmed reset leaves of the token and of the password.
use customer_portal.Prelude.{
  inl, inr, ℕ, String, true, ◌≡◌, some, List, [], ◌∷◌, is_some, arith, find_row, update_rows,
  find_row-true, Option-cases, ◌==◌, ==_eq,
}
use customer_portal.Valkey.{Valkey}
use customer_portal.Users.Models.{Db, User, PasswordResetToken, reset_token_invalid}
use customer_portal.Users.World.{
  World, ok, err, Settings, Libraries, Collaborators, Moment, Client, ◌>>=◌,
}
use customer_portal.Users.Repository.{
  has_reset_hash, reset_consume_set, get_password_reset_token_by_hash,
}
use customer_portal.Users.PasswordReset.{load_reset_token, confirm_password_reset}
use customer_portal.Users.PasswordReset.Confirm.{
  can_consume, Confirms, confirm_password_reset-Confirms,
}

-- The row of the hash, if there is one, is consumed.
abbrev pub Used : String → Db → Type 0
Used hash d =
    (t : PasswordResetToken)
    → find_row (has_reset_hash hash) d.reset_tokens ≡ some t
    → is_some t.consumed_at ≡ true

consumed_row :
    (hash : String) (now : ℕ) (rows : List PasswordResetToken) (t : PasswordResetToken)
    → find_row (has_reset_hash hash) (update_rows (can_consume hash) (reset_consume_set now) rows)
      ≡ some t
    → is_some t.consumed_at ≡ true
consumed_row hash now [] t h = ground arith
consumed_row hash now (r ∷ rows) t h = ground (arith, consumed_row hash now rows t)

module _ (vk : Valkey) (l : Libraries) (s : Settings) (c : Collaborators) where
  -- The row of the account has the new password.
  abbrev pub Verifies : String → ℕ → Db → Type 0
  Verifies new_password user d =
      (v : User)
      → find_row (λ (u : User). u.id == user) d.users ≡ some v
      → l.verify_password new_password v.hashed_password ≡ true

  hashed_row :
      (salt user id : ℕ) (new_password : String) (rows : List User) (v : User)
      → id ≡ user
      → find_row
          (λ (u : User). u.id == user)
          (update_rows
            (λ (u : User). u.id == id)
            (λ (u : User). record u { hashed_password = l.hash_password salt new_password })
            rows)
        ≡ some v
      → l.verify_password new_password v.hashed_password ≡ true
  hashed_row salt user id new_password [] v same h = ground arith
  hashed_row salt user id new_password (u ∷ rows) v same h = ground (
    arith,
    hashed_row salt user id new_password rows v same,
    l.verify-hash_password salt new_password,
  )

  confirm-Used :
      (m : Moment) (client : Client) (salt : ℕ) (token new_password : String) (w : World vk.Store)
      → Used (l.sha256 token) w.committed
      → ((confirm_password_reset vk l s c m client salt token new_password w).0
          ≡ err reset_token_invalid)
        × ((confirm_password_reset vk l s c m client salt token new_password w).1.committed
            ≡ w.committed)
  unfolding confirm_password_reset load_reset_token get_password_reset_token_by_hash ◌>>=◌
  confirm-Used m client salt token new_password w used =
      elim (Option-cases (find_row (has_reset_hash (l.sha256 token)) w.committed.reset_tokens)) [
        | inl e ↦ ground arith
        | inr (t, e) ↦ ground (arith, used t e)
      ]

  -- The effect on the token and the account, of a result that succeeded.
  Confirms-effect :
      (m : Moment) (client : Client) (salt : ℕ) (hash new_password : String) (w w' : World vk.Store)
      (t : PasswordResetToken)
      → find_row (has_reset_hash hash) w.committed.reset_tokens ≡ some t
      → Confirms vk l s c m client salt hash new_password w (ok tt, w')
      → Used hash w'.committed × Verifies new_password t.user_id w'.committed
  Confirms-effect m client salt hash new_password w w' t found h =
      elim (Option-cases (find_row (λ (u : User). u.id == t.user_id) w.committed.users)) [
        | inl e ↦ elim (rw (found, e) at h.0).2 [ ]
        | inr (u, e) ↦
            let id : u.id ≡ t.user_id =
              ==_eq u.id t.user_id
                (find_row-true (λ (u : User). u.id == t.user_id) w.committed.users u e) in
            let (rules, writes, cache) = (rw (found, e) at h.0).2 in
            (
              rw writes (consumed_row hash m.db_now (m.others w.committed).reset_tokens),
              rw writes (λ v p.
                  hashed_row salt t.user_id u.id new_password (m.others w.committed).users v id p),
            )
      ]

  -- Of a reset that succeeds: the account of the token, where it is still there, has a hash that the new
  -- password verifies against, and the token is used up: the next confirmation with it, with whatever
  -- password and at whatever moment, is refused as an invalid token and commits nothing.
  confirm_password_reset-consumes :
      (m m2 : Moment) (client client2 : Client) (salt salt2 : ℕ) (token password password2 : String)
      (w w' : World vk.Store) (t : PasswordResetToken)
      → find_row (has_reset_hash (l.sha256 token)) w.committed.reset_tokens ≡ some t
      → confirm_password_reset vk l s c m client salt token password w ≡ (ok tt, w')
      → Verifies password t.user_id w'.committed
        × ((confirm_password_reset vk l s c m2 client2 salt2 token password2 w').0
            ≡ err reset_token_invalid)
        × ((confirm_password_reset vk l s c m2 client2 salt2 token password2 w').1.committed
            ≡ w'.committed)
  confirm_password_reset-consumes m m2 client client2 salt salt2 token password password2 w w' t
        found done =
      let (used, verifies) =
        Confirms-effect m client salt (l.sha256 token) password w w' t found
          (rw done at (confirm_password_reset-Confirms vk l s c m client salt token password w)) in
      let (refused, unchanged) = confirm-Used m2 client2 salt2 token password2 w' used in
      (verifies, refused, unchanged)
