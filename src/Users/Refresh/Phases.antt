-- ===== src/Users/Refresh/Phases.antt =====
-- The two halves of rotate_refresh_token: what it does until it has read, and what it writes then.
use customer_portal.Prelude.{
  String, ◌≡◌, refl, inl, inr, some, is_some, if◌then◌else◌, arith, Bool-cases, ap,
}
use customer_portal.Session.{after}
use customer_portal.Valkey.{Valkey}
use customer_portal.Users.Models.{User, RefreshToken, token_invalid}
use customer_portal.Users.World.{
  World, Result, Action, ok, err, Settings, Libraries, Collaborators, Moment, Client, ◌>>=◌, ◌>>◌,
  raise, interleave, in_session,
}
use customer_portal.Users.Repository.{consume_refresh_token}
use customer_portal.Users.Refresh.{
  Minted, TokenResponse, reject_consumed, load_eligible, load_token, mint_or_lose,
  rotate_unconsumed, rotate_refresh_token,
}

-- One request of a client.
pub record Attempt : Type 0 where
  pub moment : Moment
  pub client : Client
  pub new : Minted

module _ (vk : Valkey) (l : Libraries) (s : Settings) (c : Collaborators) (raw : String) where
  -- The checks, and the reaction to a token that was consumed already.
  unfoldable pub begin_rotation : Attempt → Action vk.Store User
  begin_rotation a = do
    existing ← load_token vk l s c a.moment a.client (l.sha256 raw)
    if is_some existing.consumed_at
        then (reject_consumed vk l s c a.moment a.client existing >> raise token_invalid)
        else load_eligible vk l s c a.moment a.client existing

  -- The consuming UPDATE and what follows it.
  unfoldable pub finish_rotation : Attempt → User → Action vk.Store TokenResponse
  finish_rotation a user = do
    consumed ← consume_refresh_token a.moment.db_now (l.sha256 raw)
    mint_or_lose vk l s c a.moment a.client a.new (l.sha256 raw) user consumed

  -- The rest of the request after the first half.
  unfoldable pub then_finish : Attempt → User → Action vk.Store TokenResponse
  then_finish a user = do interleave a.moment.others; finish_rotation a user

  rejected :
      (a : Attempt) (t : RefreshToken) (w : World vk.Store)
      → reject_consumed vk l s c a.moment a.client t w
        ≡ ((reject_consumed vk l s c a.moment a.client t >> raise token_invalid) >>= then_finish a)
            w
  unfolding reject_consumed ◌>>=◌
  rejected a t w = ground arith

  continued :
      (a : Attempt) (t : RefreshToken) (w : World vk.Store)
      → (if is_some t.consumed_at
            then reject_consumed vk l s c a.moment a.client t
            else rotate_unconsumed vk l s c a.moment a.client a.new (l.sha256 raw) t)
          w
        ≡ ((if is_some t.consumed_at
                then (reject_consumed vk l s c a.moment a.client t >> raise token_invalid)
                else load_eligible vk l s c a.moment a.client t)
              >>= then_finish a)
            w
  unfolding rotate_unconsumed then_finish finish_rotation ◌>>=◌
  continued a t w = elim (Bool-cases (is_some t.consumed_at)) [
    | inl used ↦ rw used (rejected a t w)
    | inr unused ↦ rw unused refl
  ]

  loaded :
      (a : Attempt) (w : World vk.Store) (x : Result RefreshToken)
      → after x
          (λ t.
            if is_some t.consumed_at
            then reject_consumed vk l s c a.moment a.client t
            else rotate_unconsumed vk l s c a.moment a.client a.new (l.sha256 raw) t)
          w
        ≡ ((λ w.
                after x
                  (λ t.
                    if is_some t.consumed_at
                    then (reject_consumed vk l s c a.moment a.client t >> raise token_invalid)
                    else load_eligible vk l s c a.moment a.client t)
                  w)
              >>= then_finish a)
            w
  unfolding ◌>>=◌
  loaded a w (ok t) = continued a t w
  loaded a w (err e) = refl

  pub rotate_refresh_token-halves :
      (a : Attempt) (w : World vk.Store)
      → rotate_refresh_token vk l s c a.moment a.client a.new (some raw) w
        ≡ in_session (begin_rotation a >>= then_finish a) w
  unfolding rotate_refresh_token begin_rotation ◌>>=◌
  rotate_refresh_token-halves a w =
      let (x, w1) =
        load_token vk l s c a.moment a.client (l.sha256 raw) (record w { db = w.committed }) in
      ap (λ q. (q.0, record q.1 { db = q.1.committed })) (loaded a w1 x)
