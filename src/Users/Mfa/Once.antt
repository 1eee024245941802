-- ===== src/Users/Mfa/Once.antt =====
-- What `verify_mfa` as a whole has checked and used up.
use customer_portal.Users.Mfa.Verification.{Verifies, verify_code-Verifies}
use mathlib.Core.Path.{subst}
use customer_portal.Prelude.{
  sym, ==_eq, find_row-true, inl, inr, ℕ, String, ◌≡◌, refl, Option, none, some, arith, find_row,
  ◌==◌, Option-cases,
}
use customer_portal.Session.{after}
use customer_portal.Valkey.{CacheValue, envelope, instant, Valkey, uuid, counter, mfa_token_key}
use customer_portal.Users.Models.{mfa_invalid_code, User}
use customer_portal.Users.World.{
  World, Result, ok, err, Settings, Libraries, Collaborators, Moment, Client, or_raise, ◌>>=◌,
}
use customer_portal.Users.Repository.{get_by_id}
use customer_portal.Users.Cache.{parse_user_id, get_user_id}
use customer_portal.Users.Refresh.{Minted, TokenResponse}
use customer_portal.Users.Mfa.{load_pending, verify_code, verify_mfa}

module _ (vk : Valkey) (l : Libraries) (s : Settings) (c : Collaborators) (m : Moment)
    (client : Client) where
  -- Of the account that the token of the first step stands for.
  abbrev pub VerifiesUser :
      String → String → World vk.Store → Result TokenResponse × World vk.Store → Type 0
  VerifiesUser hash code w (err e, w') = Unit
  VerifiesUser hash code w (ok r, w') =
      (u : User) × (vk.get (mfa_token_key hash) w.store ≡ some (uuid u.id))
      × (find_row (λ (v : User). v.id == u.id) w.committed.users ≡ some u)
      × Verifies vk l s c m client hash code u (record w { db = w.committed }) (ok r, w')

  VerifiesUser-ended :
      (hash code : String) (u : User) (w : World vk.Store) (x : Result TokenResponse)
      (w' : World vk.Store)
      → vk.get (mfa_token_key hash) w.store ≡ some (uuid u.id)
      → find_row (λ (v : User). v.id == u.id) w.committed.users ≡ some u
      → Verifies vk l s c m client hash code u (record w { db = w.committed }) (x, w')
      → VerifiesUser hash code w (x, record w' { db = w'.committed })
  VerifiesUser-ended hash code u w (err e) w' pending found h = tt
  VerifiesUser-ended hash code u w (ok r) w' pending found h = (u, pending, found, h)

  abbrev Loads : String → World vk.Store → Result User × World vk.Store → Type 0
  Loads hash w (err e, w') = Unit
  Loads hash w (ok u, w') =
      (w' ≡ w)
      × (vk.get (mfa_token_key hash) w.store ≡ some (uuid u.id))
      × (find_row (λ (v : User). v.id == u.id) w.db.users ≡ some u)

  account-Loads :
      (hash : String) (id : ℕ) (w : World vk.Store)
      → vk.get (mfa_token_key hash) w.store ≡ some (uuid id)
      → Loads hash w ((get_by_id id >>= λ found. or_raise found mfa_invalid_code) w)
  unfolding get_by_id ◌>>=◌
  account-Loads hash id w pending =
      elim (Option-cases (find_row (λ (v : User). v.id == id) w.db.users)) [
        | inl e ↦ rw e tt
        | inr (u, e) ↦
            let same : u.id ≡ id =
              ==_eq u.id id (find_row-true (λ (v : User). v.id == id) w.db.users u e) in
            rw e (
              refl,
              rw same pending,
              subst (λ i. find_row (λ (v : User). v.id == i) w.db.users ≡ some u) (sym same) e,
            )
      ]

  pending-Loads :
      (hash : String) (o : Option CacheValue) (w : World vk.Store)
      → vk.get (mfa_token_key hash) w.store ≡ o
      → Loads hash w (
          after
            (parse_user_id o)
            (λ id. or_raise id mfa_invalid_code >>= λ user.
              (get_by_id user >>= λ found. or_raise found mfa_invalid_code))
            w)
  unfolding ◌>>=◌
  pending-Loads hash none w h = tt
  pending-Loads hash (some (uuid id)) w h = account-Loads hash id w h
  pending-Loads hash (some (counter n)) w h = tt
  pending-Loads hash (some (envelope a b)) w h = tt
  pending-Loads hash (some (instant t)) w h = tt

  load_pending-Loads :
      (hash : String) (w : World vk.Store) → Loads hash w (load_pending vk l s c m client hash w)
  unfolding load_pending get_user_id get_by_id ◌>>=◌
  load_pending-Loads hash w = pending-Loads hash (vk.get (mfa_token_key hash) w.store) w refl

  loaded-VerifiesUser :
      (new : Minted) (hash code : String) (w : World vk.Store) (x : Result User)
      (w1 : World vk.Store)
      → Loads hash (record w { db = w.committed }) (x, w1)
      → let (y, w2) = after x (λ u. verify_code vk l s c m client new hash code u) w1 in
        VerifiesUser hash code w (y, record w2 { db = w2.committed })
  loaded-VerifiesUser new hash code w (err e) w1 h = tt
  loaded-VerifiesUser new hash code w (ok u) w1 h =
      let w0 : World vk.Store = record w { db = w.committed } in
      let (y, w2) = verify_code vk l s c m client new hash code u w0 in
      rw h.0 (
        VerifiesUser-ended hash code u w y w2 h.1 h.2
          (verify_code-Verifies vk l s c m client new hash code u w0))

  -- A verification that answers tokens has found the account that the token of the first step stands for,
  -- and the code was either a recovery code of the account, unconsumed when it was read and still so when
  -- it was consumed, or its TOTP code of a step that had not been used before and is marked as used now;
  -- and the token of the first step is gone.
  pub verify_mfa-VerifiesUser :
      (new : Minted) (mfa_token code : String) (w : World vk.Store)
      → VerifiesUser (l.sha256 mfa_token) code w (verify_mfa vk l s c m client new mfa_token code w)
  unfolding verify_mfa ◌>>=◌
  verify_mfa-VerifiesUser new mfa_token code w =
      let w0 : World vk.Store = record w { db = w.committed } in
      let (x, w1) = load_pending vk l s c m client (l.sha256 mfa_token) w0 in
      loaded-VerifiesUser new (l.sha256 mfa_token) code w x w1
        (load_pending-Loads (l.sha256 mfa_token) w0)

  -- A token of the first step is used once: after a verification that answers tokens, the next that
  -- presents it, with whatever code and at whatever moment, is refused as an invalid code and commits
  -- nothing.
  verify_mfa-once :
      (m2 : Moment) (client2 : Client) (new new2 : Minted) (mfa_token code code2 : String)
      (w w' : World vk.Store) (r : TokenResponse)
      → verify_mfa vk l s c m client new mfa_token code w ≡ (ok r, w')
      → ((verify_mfa vk l s c m2 client2 new2 mfa_token code2 w').0 ≡ err mfa_invalid_code)
        × ((verify_mfa vk l s c m2 client2 new2 mfa_token code2 w').1.committed ≡ w'.committed)
  unfolding verify_mfa load_pending get_user_id ◌>>=◌
  verify_mfa-once m2 client2 new new2 mfa_token code code2 w w' r done =
      let (u, pending, found, used) = rw done at (verify_mfa-VerifiesUser new mfa_token code w) in
      ground (arith, used.0)
