-- ===== src/Users/PasswordReset/Confirm.antt =====
-- What a confirmed password reset does.
use customer_portal.Prelude.{
  ℕ, String, Bool, true, false, ◌&&◌, ◌≡◌, refl, ◌⊎◌, inl, inr, some, List, [], ◌∷◌, ◌++◌, is_some,
  leb, arith, find_row, update_rows, OnRow, Option-cases, ◌==◌,
}
use customer_portal.Session.{after}
use customer_portal.Valkey.{Valkey, revoke_before_key, instant}
use customer_portal.Users.Models.{
  Db, User, PasswordResetToken, reset_token_invalid, reset_token_expired, password_policy,
  UsersError,
}
use customer_portal.Users.World.{
  World, Result, ok, err, Settings, Libraries, Collaborators, Moment, Client, interleave, ◌>>=◌,
}
use customer_portal.Users.Repository.{
  entry, set_user, has_reset_hash, reset_unconsumed, reset_consume_set, get_by_id,
  get_password_reset_token_by_hash, consume_password_reset_token, update_password_hash,
  create_auth_audit_log_entry,
}
use customer_portal.Users.Cache.{set_revoke_before}
use customer_portal.Users.PasswordReset.{
  broken_rules, load_reset_token, load_account, set_password, consume_and_set,
  confirm_password_reset,
}

abbrev pub can_consume : String → PasswordResetToken → Bool
can_consume hash t = has_reset_hash hash t && reset_unconsumed t

module _ (vk : Valkey) (l : Libraries) (s : Settings) (c : Collaborators) (m : Moment)
    (client : Client) where
  -- The tables after a reset.
  abbrev pub reset : ℕ → String → User → String → Db → Db
  reset salt hash u new_password d =
      record (set_user u.id (λ u. record u { hashed_password = l.hash_password salt new_password })
        d) {
          reset_tokens = update_rows (can_consume hash) (reset_consume_set m.db_now) d.reset_tokens;
          audit = d.audit ++ entry "password_reset_completed" (some u.id) client ∷ [];
        }

  abbrev LoadsToken : String → World vk.Store → Result PasswordResetToken × World vk.Store → Type 0
  LoadsToken hash w (ok t, w') =
      (w' ≡ w)
      × (find_row (has_reset_hash hash) w.db.reset_tokens ≡ some t)
      × (is_some t.consumed_at ≡ false)
      × (leb t.expires_at m.utc_now ≡ false)
  LoadsToken hash w (err e, w') = (w' ≡ w) × ((e ≡ reset_token_invalid) ⊎ (e ≡ reset_token_expired))

  load_reset_token-LoadsToken :
      (hash : String) (w : World vk.Store)
      → LoadsToken hash w (load_reset_token vk l s c m client hash w)
  unfolding load_reset_token get_password_reset_token_by_hash ◌>>=◌
  load_reset_token-LoadsToken hash w = ground arith

  abbrev LoadsAccount :
      PasswordResetToken → String → World vk.Store → Result User × World vk.Store → Type 0
  LoadsAccount t new_password w (ok u, w') =
      (w' ≡ w)
      × (find_row (λ (u : User). u.id == t.user_id) w.db.users ≡ some u)
      × (broken_rules l u new_password ≡ [])
  LoadsAccount t new_password w (err e, w') =
      (w' ≡ w) × ((e ≡ reset_token_invalid) ⊎ ((rules : List String) × (e ≡ password_policy rules)))

  load_account-LoadsAccount :
      (t : PasswordResetToken) (new_password : String) (w : World vk.Store)
      → LoadsAccount t new_password w (load_account vk l s c m client t new_password w)
  unfolding load_account get_by_id ◌>>=◌
  load_account-LoadsAccount t new_password w = ground arith

  abbrev Sets :
      ℕ → String → User → String → World vk.Store → Result (Unit {0}) × World vk.Store → Type 0
  Sets salt hash u new_password w (ok x, w') =
      (w'.committed ≡ reset salt hash u new_password w.db)
      × (w'.store
          ≡ vk.set_ex (revoke_before_key u.id) (instant m.utc_now) s.refresh_token_ttl_seconds
              w.store)
      × (is_some (find_row (can_consume hash) w.db.reset_tokens) ≡ true)
  Sets salt hash u new_password w (err e, w') = (w' ≡ w) × (e ≡ reset_token_invalid)

  consume_and_set-Sets :
      (salt : ℕ) (hash : String) (u : User) (new_password : String) (w : World vk.Store)
      → Sets salt hash u new_password w
          (consume_and_set vk l s c m client salt hash u new_password w)
  unfolding consume_and_set set_password consume_password_reset_token update_password_hash
      set_revoke_before create_auth_audit_log_entry ◌>>=◌
  consume_and_set-Sets salt hash u new_password w =
      elim (Option-cases (find_row (can_consume hash) w.db.reset_tokens)) [
        | inl e ↦ ground arith
        | inr (t, e) ↦ ground arith
      ]

  abbrev pub IsRefusal : UsersError → Type 0
  IsRefusal e =
      (e ≡ reset_token_invalid)
      ⊎ (e ≡ reset_token_expired)
      ⊎ ((rules : List String) × (e ≡ password_policy rules))

  abbrev pub Confirms :
      ℕ → String → String → World vk.Store → Result (Unit {0}) × World vk.Store → Type 0
  Confirms salt hash new_password w (ok x, w') =
      OnRow
        (λ (t : PasswordResetToken).
          (is_some t.consumed_at ≡ false)
          × (leb t.expires_at m.utc_now ≡ false)
          × OnRow
              (λ (u : User).
                (broken_rules l u new_password ≡ [])
                × (w'.committed ≡ reset salt hash u new_password (m.others w.committed))
                × (vk.get (revoke_before_key u.id) w'.store ≡ some (instant m.utc_now)))
              (find_row (λ (u : User). u.id == t.user_id) w.committed.users))
        (find_row (has_reset_hash hash) w.committed.reset_tokens)
      × (is_some (find_row (can_consume hash) (m.others w.committed).reset_tokens) ≡ true)
  Confirms salt hash new_password w (err e, w') =
      IsRefusal e
      × ((w'.committed ≡ w.committed) ⊎ (w'.committed ≡ m.others w.committed))
      × (w'.store ≡ w.store)

  Sets-Confirms :
      (salt : ℕ) (hash : String) (t : PasswordResetToken) (u : User) (new_password : String)
      (w w1 : World vk.Store) (x : Result (Unit {0})) (w' : World vk.Store)
      → find_row (has_reset_hash hash) w.committed.reset_tokens ≡ some t
      → is_some t.consumed_at ≡ false
      → leb t.expires_at m.utc_now ≡ false
      → find_row (λ (u : User). u.id == t.user_id) w.committed.users ≡ some u
      → broken_rules l u new_password ≡ []
      → w1.db ≡ m.others w.committed
      → w1.committed ≡ m.others w.committed
      → w1.store ≡ w.store
      → Sets salt hash u new_password w1 (x, w')
      → Confirms salt hash new_password w (x, w')
  Sets-Confirms salt hash t u new_password w w1 (ok x) w' found unused fresh account rules db
        committed store h =
      let (writes, cache, was) = h in
      (
        rw found (
          unused,
          fresh,
          rw account (
            rules,
            (rw db at writes),
            rw cache (
                vk.get-set_ex (revoke_before_key u.id) (instant m.utc_now)
                  s.refresh_token_ttl_seconds w1.store),
          ),
        ),
        rw db at was,
      )
  Sets-Confirms salt hash t u new_password w w1 (err e) w' found unused fresh account rules db
        committed store h =
      (inl h.1, inr (rw h.0 committed), rw h.0 store)

  account-Confirms :
      (salt : ℕ) (hash new_password : String) (t : PasswordResetToken) (w : World vk.Store)
      (x : Result User) (w1 : World vk.Store)
      → find_row (has_reset_hash hash) w.committed.reset_tokens ≡ some t
      → is_some t.consumed_at ≡ false
      → leb t.expires_at m.utc_now ≡ false
      → LoadsAccount t new_password (record w { db = w.committed }) (x, w1)
      → Confirms salt hash new_password w (
          after x
            (λ u.
              (interleave m.others >>= λ _.
              consume_and_set vk l s c m client salt hash u new_password))
            w1)
  unfolding ◌>>=◌
  account-Confirms salt hash new_password t w (err e) w1 found unused fresh h = ground arith
  account-Confirms salt hash new_password t w (ok u) w1 found unused fresh h =
      let w2 : World vk.Store = record w {
        db = m.others w.committed;
        committed = m.others w.committed;
      } in
      let (x, w3) = consume_and_set vk l s c m client salt hash u new_password w2 in
      rw h.0 (
        Sets-Confirms salt hash t u new_password w w2 x w3 found unused fresh h.1 h.2 refl refl refl
          (consume_and_set-Sets salt hash u new_password w2))

  token-Confirms :
      (salt : ℕ) (hash new_password : String) (w : World vk.Store) (x : Result PasswordResetToken)
      (w1 : World vk.Store)
      → LoadsToken hash (record w { db = w.committed }) (x, w1)
      → Confirms salt hash new_password w (
          after x
            (λ t. load_account vk l s c m client t new_password >>= λ u.
              (interleave m.others >>= λ _.
              consume_and_set vk l s c m client salt hash u new_password))
            w1)
  unfolding ◌>>=◌
  token-Confirms salt hash new_password w (err e) w1 h = ground arith
  token-Confirms salt hash new_password w (ok t) w1 h =
      let w0 : World vk.Store = record w { db = w.committed } in
      let (x, w2) = load_account vk l s c m client t new_password w0 in
      rw h.0 (
        account-Confirms salt hash new_password t w x w2 h.1 h.2 h.3
          (load_account-LoadsAccount t new_password w0))

  Confirms-closed :
      (salt : ℕ) (hash new_password : String) (w : World vk.Store) (x : Result (Unit {0}))
      (w' : World vk.Store)
      → Confirms salt hash new_password w (x, w')
      → Confirms salt hash new_password w (x, record w' { db = w'.committed })
  Confirms-closed salt hash new_password w (ok x) w' h = h
  Confirms-closed salt hash new_password w (err e) w' h = h

  -- A confirmation ends in one of two ways. Either it succeeds, and then the token was, when it was read,
  -- neither consumed nor expired, the new password of its account breaks no rule, the token is still
  -- unconsumed at the write, what is committed is, on top of what other sessions committed, exactly the
  -- new hash, the consumption and an audit entry, and the account's sessions up to now are revoked in the
  -- cache. Or it is refused with one of the three errors for a bad token or a bad password, and neither
  -- this session nor the cache has changed anything.
  pub confirm_password_reset-Confirms :
      (salt : ℕ) (token new_password : String) (w : World vk.Store)
      → Confirms salt
          (l.sha256 token)
          new_password
          w
          (confirm_password_reset vk l s c m client salt token new_password w)
  unfolding confirm_password_reset ◌>>=◌
  confirm_password_reset-Confirms salt token new_password w =
      let hash = l.sha256 token in
      let w0 : World vk.Store = record w { db = w.committed } in
      let (x, w1) = load_reset_token vk l s c m client hash w0 in
      let (y, w2) =
        after x
          (λ t. load_account vk l s c m client t new_password >>= λ u.
            (interleave m.others >>= λ _.
            consume_and_set vk l s c m client salt hash u new_password))
          w1 in
      Confirms-closed salt hash new_password w y w2
        (token-Confirms salt hash new_password w x w1 (load_reset_token-LoadsToken hash w0))
