-- ===== src/Users/Login/Cap.antt =====
-- How many sessions an account can have.
use customer_portal.Prelude.{
  inl, inr, ℕ, ◌+◌, ◌≤◌, String, Bool, true, false, not, ◌&&◌, ◌||◌, ◌≡◌, refl, Option, none, some,
  List, [], ◌∷◌, ◌++◌, arith, update_rows, keep, length, leb, ◌==◌, Bool-cases,
}
use customer_portal.Valkey.{Valkey}
use customer_portal.Users.Models.{Db, RefreshToken}
use customer_portal.Users.World.{World, Result, Settings, Libraries, Moment, Client, seconds, ◌>>=◌}
use customer_portal.Users.Repository.{
  is_live, revoke_set, add_family, family_created_at, create_session, create_refresh_token,
  update_last_login_at, create_auth_audit_log_entry, get_family_created_at_map_for_user,
  revoke_refresh_token_family,
}
use customer_portal.Users.Refresh.{Minted}
use customer_portal.Users.Login.Opening.{evict_oldest-Evicts}
use customer_portal.Users.Login.{older, oldest, evict, evict_oldest_family_if_at_cap, open_session}

-- `family in family_created_at`
abbrev has_family : ℕ → List (ℕ × ℕ) → Bool
has_family f [] = false
has_family f ((g, i) ∷ rest) = f == g || has_family f rest

abbrev one_if : Bool → ℕ
one_if true = 1
one_if false = 0

has_family-add_family :
    (f g i : ℕ) (families : List (ℕ × ℕ))
    → has_family f (add_family g i families) ≡ (f == g || has_family f families)
unfolding add_family
has_family-add_family f g i [] = refl
has_family-add_family f g i ((h, j) ∷ rest) = ground (arith, has_family-add_family f g i rest)

length-add_family :
    (g i : ℕ) (families : List (ℕ × ℕ))
    → length (add_family g i families) ≡ length families + one_if (not (has_family g families))
unfolding add_family
length-add_family g i [] = refl
length-add_family g i ((h, j) ∷ rest) = ground (arith, length-add_family g i rest)

-- The live rows of a user.
abbrev live : ℕ → ℕ → List RefreshToken → List (ℕ × ℕ)
live now user rows = family_created_at (keep (is_live now user) rows)

abbrev revoked_family : ℕ → ℕ → List RefreshToken → List RefreshToken
revoked_family now f rows =
    update_rows (λ (t : RefreshToken). t.family_id == f) (revoke_set now) rows

has_family-revoked :
    (now user f g : ℕ) (rows : List RefreshToken)
    → has_family g (live now user (revoked_family now f rows))
      ≡ (not (g == f) && has_family g (live now user rows))
unfolding family_created_at
has_family-revoked now user f g [] = ground arith
has_family-revoked now user f g (t ∷ rows) = ground (
  arith,
  has_family-revoked now user f g rows,
  has_family-add_family g t.family_id t.issued_at (live now user (revoked_family now f rows)),
  has_family-add_family g t.family_id t.issued_at (live now user rows),
)

length-revoked :
    (now user f : ℕ) (rows : List RefreshToken)
    → length (live now user (revoked_family now f rows))
        + one_if (has_family f (live now user rows))
      ≡ length (live now user rows)
unfolding family_created_at
length-revoked now user f [] = refl
length-revoked now user f (t ∷ rows) = ground (
  arith,
  length-revoked now user f rows,
  has_family-revoked now user f t.family_id rows,
  length-add_family t.family_id t.issued_at (live now user (revoked_family now f rows)),
  length-add_family t.family_id t.issued_at (live now user rows),
  has_family-add_family f t.family_id t.issued_at (live now user rows),
)

has_family-append :
    (now user g : ℕ) (rows : List RefreshToken) (t : RefreshToken)
    → has_family g (live now user (rows ++ t ∷ []))
      ≡ (has_family g (live now user rows) || is_live now user t && g == t.family_id)
unfolding family_created_at add_family
has_family-append now user g [] t = ground arith
has_family-append now user g (r ∷ rows) t = ground (
  arith,
  has_family-append now user g rows t,
  has_family-add_family g r.family_id r.issued_at (live now user (rows ++ t ∷ [])),
  has_family-add_family g r.family_id r.issued_at (live now user rows),
)

length-append :
    (now user : ℕ) (rows : List RefreshToken) (t : RefreshToken)
    → length (live now user (rows ++ t ∷ []))
      ≡ length (live now user rows)
        + one_if (is_live now user t && not (has_family t.family_id (live now user rows)))
unfolding family_created_at add_family
length-append now user [] t = ground arith
length-append now user (r ∷ rows) t = ground (
  arith,
  length-append now user rows t,
  has_family-append now user r.family_id rows t,
  length-add_family r.family_id r.issued_at (live now user (rows ++ t ∷ [])),
  length-add_family r.family_id r.issued_at (live now user rows),
  has_family-add_family t.family_id r.family_id r.issued_at (live now user rows),
)

has_family-oldest :
    (p : ℕ × ℕ) (rest : List (ℕ × ℕ)) → has_family (oldest p rest).0 (p ∷ rest) ≡ true
unfolding oldest
has_family-oldest p [] = ground arith
has_family-oldest p (q ∷ rest) = ground (arith, has_family-oldest (older p q) rest)

module _ (vk : Valkey) (l : Libraries) (s : Settings) (m : Moment) (client : Client) where
  abbrev opened : Minted → ℕ → RefreshToken
  opened new user = record {
    token_hash = l.sha256 new.raw_token;
    family_id = new.family_id;
    user_id = user;
    issued_at = m.db_now;
    expires_at = m.utc_now + seconds s.refresh_token_ttl_seconds;
    revoked_at = none;
    consumed_at = none;
    last_used_at = none;
    ip = some client.ip;
    user_agent = client.user_agent;
  }

  -- How many sessions the user has, as the database sees it at the moment of the login.
  abbrev pub live_count : ℕ → Db → ℕ
  live_count user d = length (live m.db_now user d.refresh_tokens)

  abbrev Bounded : ℕ → World vk.Store → Result (Unit {0}) × World vk.Store → Type 0
  Bounded user w (x, w') = live_count user w'.db + 1 ≤ s.max_live_sessions_per_user

  evicted-Bounded :
      (user : ℕ) (families : List (ℕ × ℕ)) (w : World vk.Store)
      → families ≡ live m.db_now user w.db.refresh_tokens
      → 1 ≤ s.max_live_sessions_per_user
      → s.max_live_sessions_per_user ≤ length families
      → length families ≤ s.max_live_sessions_per_user
      → Bounded user w (evict vk l s m client user families w)
  unfolding evict revoke_refresh_token_family create_auth_audit_log_entry ◌>>=◌
  evicted-Bounded user [] w same positive full before = ground arith
  evicted-Bounded user (p ∷ rest) w same positive full before = ground (
    arith,
    same,
    has_family-oldest p rest,
    length-revoked m.db_now user (oldest p rest).0 w.db.refresh_tokens,
  )

  evict-Bounded :
      (user : ℕ) (w : World vk.Store)
      → 1 ≤ s.max_live_sessions_per_user
      → live_count user w.db ≤ s.max_live_sessions_per_user
      → Bounded user w (evict_oldest_family_if_at_cap vk l s m client user w)
  unfolding evict_oldest_family_if_at_cap get_family_created_at_map_for_user ◌>>=◌
  evict-Bounded user w positive before =
      let families = live m.db_now user w.db.refresh_tokens in
      elim (Bool-cases (leb s.max_live_sessions_per_user (length families))) [
        | inl full ↦
            rw full (evicted-Bounded user families w refl positive (ground (arith, full)) before)
        | inr room ↦ rw room (ground (arith, room, before))
      ]

  -- A login, with one factor or two, leaves the user with at most as many live token families as the
  -- settings allow, if there were not more before it and the settings allow one.
  pub open_session-capped :
      (scope : Option String) (new : Minted) (user : ℕ) (w : World vk.Store)
      → 1 ≤ s.max_live_sessions_per_user
      → live_count user w.db ≤ s.max_live_sessions_per_user
      → live_count user (open_session vk l s m client scope new user w).1.committed
        ≤ s.max_live_sessions_per_user
  unfolding open_session create_session create_refresh_token update_last_login_at
      create_auth_audit_log_entry ◌>>=◌
  open_session-capped scope new user w positive before =
      let w1 =
        (create_session m.db_now user new.jti (m.utc_now + seconds s.access_token_ttl_seconds)
          w).1 in
      let w2 = (evict_oldest_family_if_at_cap vk l s m client user w1).1 in
      ground (
        arith,
        evict_oldest-Evicts vk l s m client user w1,
        evict-Bounded user w1 positive before,
        length-append m.db_now user w2.db.refresh_tokens (opened new user),
      )
