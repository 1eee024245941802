-- ===== src/Users/Refresh/Spent.antt =====
-- A refresh token that is spent, and what the two halves of a rotation do to it.
use mathlib.Core.Path.{subst}
use customer_portal.Users.Refresh.Loading.{
  LoadsToken, load_token-LoadsToken, load_eligible-LoadsUser,
}
use customer_portal.Users.Refresh.Phases.{finish_rotation, begin_rotation, Attempt}
use customer_portal.Session.{◌>>=◌, in_session, after, ◌>>◌, raise}
use text.Mathlib.TextEquality.{eq_iff}
use customer_portal.Prelude.{
  if◌then◌else◌, ℕ, String, ◌≡◌, ◌≢◌, refl, inl, inr, Bool, true, Option, none, some, List, [], ◌∷◌,
  ◌++◌, is_some, ◌&&◌, ◌==◌, arith, find_row, update_rows, OnRow, Option-cases, ◌⊎◌, Bool-cases,
  ◌∙◌, sym,
}
use customer_portal.Valkey.{Valkey}
use customer_portal.Users.Models.{Db, RefreshToken, User, token_invalid}
use customer_portal.Users.World.{World, Result, ok, err, Settings, Libraries, Collaborators}
use customer_portal.Users.Repository.{has_hash, is_unconsumed, consume_set, revoke_set}
use customer_portal.Users.Refresh.{
  TokenResponse, successor, load_token, reject_consumed, load_eligible,
}
use customer_portal.Users.Refresh.Rotation.{
  Reacts, mint_or_lose-Ends, Ends, reject_consumed-Rejects,
}

abbrev pub can_consume : String → RefreshToken → Bool
can_consume hash t = has_hash hash t && is_unconsumed t

-- No unconsumed row is left with this hash.
abbrev pub Spent : String → List RefreshToken → Type 0
Spent hash rows = find_row (can_consume hash) rows ≡ none

Spent-consumed :
    (hash : String) (now : ℕ) (rows : List RefreshToken)
    → Spent hash (update_rows (can_consume hash) (consume_set now) rows)
Spent-consumed hash now [] = refl
Spent-consumed hash now (r ∷ rows) = ground (arith, Spent-consumed hash now rows)

Spent-append :
    (hash : String) (rows : List RefreshToken) (t : RefreshToken)
    → t.token_hash ≢ hash
    → Spent hash rows
    → Spent hash (rows ++ t ∷ [])
Spent-append hash [] t ne h = ground (arith, eq_iff t.token_hash hash)
Spent-append hash (r ∷ rows) t ne h = ground (arith, Spent-append hash rows t ne)

Spent-revoked :
    (hash : String) (now family : ℕ) (rows : List RefreshToken)
    → Spent hash rows
    → Spent hash (update_rows (λ (r : RefreshToken). r.family_id == family) (revoke_set now) rows)
Spent-revoked hash now family [] h = refl
Spent-revoked hash now family (r ∷ rows) h = ground (arith, Spent-revoked hash now family rows)

module _ (vk : Valkey) (l : Libraries) (s : Settings) (c : Collaborators) (raw : String) where
  pub reaction-Spent :
      (a : Attempt) (now : ℕ) (d d' : Db) (o : Option RefreshToken)
      → OnRow (λ t. Reacts vk l s c a.moment a.client now t d d') o
      → Spent (l.sha256 raw) d.refresh_tokens
      → Spent (l.sha256 raw) d'.refresh_tokens
  reaction-Spent a now d d' none h spent = elim h [ ]
  reaction-Spent a now d d' (some t) (inl h) spent = rw h.1 spent
  reaction-Spent a now d d' (some t) (inr h) spent =
      rw h.1 (Spent-revoked (l.sha256 raw) a.moment.db_now t.family_id d.refresh_tokens spent)

  -- What the first half of a request commits.
  abbrev Begins : Attempt → Db → Result User × World vk.Store → Type 0
  Begins a d (x, w') =
      (w'.committed ≡ d)
      ⊎ OnRow (λ t. Reacts vk l s c a.moment a.client a.moment.utc_now t d w'.committed)
          (find_row (has_hash (l.sha256 raw)) d.refresh_tokens)

  begun-Begins :
      (a : Attempt) (t : RefreshToken) (w : World vk.Store)
      → w.db ≡ w.committed
      → find_row (has_hash (l.sha256 raw)) w.committed.refresh_tokens ≡ some t
      → Begins a w.committed (
          (if is_some t.consumed_at
              then (reject_consumed vk l s c a.moment a.client t >> raise token_invalid)
              else load_eligible vk l s c a.moment a.client t)
            w)
  unfolding ◌>>=◌
  begun-Begins a t w same found = elim (Bool-cases (is_some t.consumed_at)) [
    | inl used ↦
        rw used (ground (arith, found, reject_consumed-Rejects vk l s c a.moment a.client t w same))
    | inr unused ↦
        rw unused (ground (arith, load_eligible-LoadsUser vk l s c a.moment a.client t w))
  ]

  loaded-Begins :
      (a : Attempt) (w w1 : World vk.Store) (x : Result RefreshToken)
      → LoadsToken vk l s c a.moment a.client (l.sha256 raw) (record w { db = w.committed }) (x, w1)
      → Begins a w.committed (
          after x
            (λ t.
              if is_some t.consumed_at
              then (reject_consumed vk l s c a.moment a.client t >> raise token_invalid)
              else load_eligible vk l s c a.moment a.client t)
            w1)
  loaded-Begins a w w1 (ok t) (found, fresh, live, (d, k, o)) =
      subst
        (λ d. Begins a d (
          (if is_some t.consumed_at
              then (reject_consumed vk l s c a.moment a.client t >> raise token_invalid)
              else load_eligible vk l s c a.moment a.client t)
            w1))
        k (begun-Begins a t w1 (d ∙ sym k) (rw k found))
  loaded-Begins a w w1 (err e) (d, k, o) = inl k

  pub begin_rotation-Spent :
      (a : Attempt) (w : World vk.Store)
      → Spent (l.sha256 raw) w.committed.refresh_tokens
      → Spent
          (l.sha256 raw)
          (in_session (begin_rotation vk l s c raw a) w).1.committed.refresh_tokens
  unfolding begin_rotation ◌>>=◌
  begin_rotation-Spent a w spent =
      let (x, w1) =
        load_token vk l s c a.moment a.client (l.sha256 raw) (record w { db = w.committed }) in
      let q : Result User × World vk.Store =
        after x
          (λ t.
            if is_some t.consumed_at
            then (reject_consumed vk l s c a.moment a.client t >> raise token_invalid)
            else load_eligible vk l s c a.moment a.client t)
          w1 in
      kept q (
        loaded-Begins a w w1 x (
          load_token-LoadsToken vk l s c a.moment a.client (l.sha256 raw)
            (record w { db = w.committed })))
    where
      kept :
          (q : Result User × World vk.Store)
          → Begins a w.committed q
          → Spent (l.sha256 raw) q.1.committed.refresh_tokens
      kept (x, w') (inl h) = rw h spent
      kept (x, w') (inr h) =
          reaction-Spent a a.moment.utc_now w.committed w'.committed
            (find_row (has_hash (l.sha256 raw)) w.committed.refresh_tokens) h spent

  -- A request whose write comes after the token is spent is not answered; one that is answered spends it.
  abbrev pub Finishes : Db → Result TokenResponse × World vk.Store → Type 0
  Finishes d (ok r, w') =
      (is_some (find_row (can_consume (l.sha256 raw)) d.refresh_tokens) ≡ true)
      × Spent (l.sha256 raw) w'.committed.refresh_tokens
  Finishes d (err e, w') =
      Spent (l.sha256 raw) d.refresh_tokens → Spent (l.sha256 raw) w'.committed.refresh_tokens

  ended-Finishes :
      (a : Attempt) (u : User) (w : World vk.Store) (q : Result TokenResponse × World vk.Store)
      → l.sha256 a.new.raw_token ≢ l.sha256 raw
      → Ends vk l s c a.moment a.client a.new (l.sha256 raw) u (record w { db = w.committed }) q
      → Finishes w.committed q
  ended-Finishes a u w (ok r, w') differs h =
      let rows = w.committed.refresh_tokens in
      elim (Option-cases (find_row (can_consume (l.sha256 raw)) rows)) [
        | inl e ↦ elim (rw e at h) [ ]
        | inr (t, e) ↦ (
          rw e refl,
          rw ((rw e at h).0) (
              Spent-append (l.sha256 raw)
                (update_rows (can_consume (l.sha256 raw)) (consume_set a.moment.db_now) rows)
                (successor a.moment a.client (l.sha256 a.new.raw_token) t) differs
                (Spent-consumed (l.sha256 raw) a.moment.db_now rows)),
        )
      ]
  ended-Finishes a u w (err e, w') differs (inl h) = λ spent. rw h spent
  ended-Finishes a u w (err e, w') differs (inr h) = λ spent.
      reaction-Spent a a.moment.utc_again w.committed w'.committed
        (find_row (has_hash (l.sha256 raw)) w.committed.refresh_tokens) h spent

  pub finish_rotation-Finishes :
      (a : Attempt) (u : User) (w : World vk.Store)
      → l.sha256 a.new.raw_token ≢ l.sha256 raw
      → Finishes w.committed (in_session (finish_rotation vk l s c raw a u) w)
  unfolding finish_rotation ◌>>=◌
  finish_rotation-Finishes a u w differs = closed _ (
      ended-Finishes a u w _ differs (
        mint_or_lose-Ends vk l s c a.moment a.client a.new (l.sha256 raw) u
          (record w { db = w.committed }) refl))
    where
      closed :
          (q : Result TokenResponse × World vk.Store)
          → Finishes w.committed q
          → Finishes w.committed (q.0, record q.1 { db = q.1.committed })
      closed (ok r, w') h = h
      closed (err e, w') h = h
