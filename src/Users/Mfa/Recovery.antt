-- ===== src/Users/Mfa/Recovery.antt =====
-- Which recovery code a code consumes.
use customer_portal.Prelude.{
  inl, inr, ℕ, String, Bool, true, false, ◌&&◌, ◌≡◌, refl, some, List, [], ◌∷◌, is_some, find_row,
  update_rows, ◌==◌, Option-cases, Bool-cases,
}
use customer_portal.Valkey.{Valkey}
use customer_portal.Users.Models.{MfaRecoveryCode}
use customer_portal.Users.World.{
  World, Result, ok, err, Settings, Libraries, Collaborators, Moment, Client, ◌>>=◌,
}
use customer_portal.Users.Repository.{
  code_unconsumed, has_code_id, code_consume_set, consume_recovery_code,
}
use customer_portal.Users.Mfa.{consume_match}

module _ (vk : Valkey) (l : Libraries) (s : Settings) (c : Collaborators) (m : Moment)
    (client : Client) where
  abbrev is_match : String → ℕ → MfaRecoveryCode → Bool
  is_match code user r =
      r.user_id == user && code_unconsumed r && l.verify_password code r.code_hash

  -- The recovery code that was consumed, a candidate that the code matches.
  abbrev pub Consumes :
      String → List MfaRecoveryCode → World vk.Store → Result Bool × World vk.Store → Type 0
  Consumes code candidates w (err e, w') = ⊥
  Consumes code candidates w (ok false, w') = (w'.store ≡ w.store)
  Consumes code candidates w (ok true, w') =
      (w'.store ≡ w.store)
      × ((r : MfaRecoveryCode) × (find_row (λ r. l.verify_password code r.code_hash) candidates
            ≡ some r)
          × (is_some (
                find_row (λ r'. has_code_id r.id r' && code_unconsumed r')
                  (m.others w.db).recovery_codes)
              ≡ true)
          × (w'.db.recovery_codes
              ≡ update_rows (λ r'. has_code_id r.id r' && code_unconsumed r')
                  (code_consume_set m.db_now) (m.others w.db).recovery_codes))

  skip-Consumes :
      (code : String) (r : MfaRecoveryCode) (rest : List MfaRecoveryCode) (w : World vk.Store)
      (x : Result Bool) (w' : World vk.Store)
      → l.verify_password code r.code_hash ≡ false
      → Consumes code rest w (x, w')
      → Consumes code (r ∷ rest) w (x, w')
  skip-Consumes code r rest w (err e) w' no_match h = h
  skip-Consumes code r rest w (ok false) w' no_match h = h
  skip-Consumes code r rest w (ok true) w' no_match h = rw no_match h

  pub consume_match-Consumes :
      (code : String) (candidates : List MfaRecoveryCode) (w : World vk.Store)
      → Consumes code candidates w (consume_match vk l s c m client code candidates w)
  unfolding consume_match consume_recovery_code ◌>>=◌
  consume_match-Consumes code [] w = refl
  consume_match-Consumes code (r ∷ rest) w =
      elim (Bool-cases (l.verify_password code r.code_hash)) [
        | inr no_match ↦
            let (x, w') = consume_match vk l s c m client code rest w in
            rw no_match
              (skip-Consumes code r rest w x w' no_match (consume_match-Consumes code rest w))
        | inl matches ↦
            elim (Option-cases (
              find_row (λ r'. has_code_id r.id r' && code_unconsumed r')
                (m.others w.db).recovery_codes)) [
                  | inl e ↦ rw matches (rw e refl)
                  | inr (r2, e) ↦ rw matches (rw e (refl, (r, rw matches refl, rw e refl, refl)))
                ]
      ]
