-- ===== src/Users/Refresh/Schedules.antt =====
-- Schedules of refresh requests that present one token and overlap.
use customer_portal.Users.Refresh.Spent.{Spent}
use customer_portal.Users.Refresh.Phases.{finish_rotation, begin_rotation, Attempt}
use customer_portal.Session.{in_session}
use customer_portal.Prelude.{zero, suc, ℕ, ◌+◌, String, ◌≢◌, Option, none, some, List, [], ◌∷◌, suc}
use customer_portal.Valkey.{Valkey}
use customer_portal.Users.Models.{Db, User}
use customer_portal.Users.World.{World, Result, ok, err, Settings, Libraries, Collaborators}
use customer_portal.Users.Refresh.{TokenResponse}

-- What happens to the database: a request reads, one that has read writes (by its place among those
-- that wait), or another session commits.
pub data Event : Type 0 where
  begins : Attempt → Event
  finishes : ℕ → Event
  commits : (Db → Db) → Event

-- The requests that have read and not yet written, each with the account that it read, and how many were
-- answered with a new token.
pub record Requests (Store : Type 0) : Type 0 where
  pub world : World Store
  pub waiting : List (Attempt × User)
  pub answered : ℕ

abbrev pub waits : Attempt → Result User → List (Attempt × User) → List (Attempt × User)
waits a (ok u) others = (a, u) ∷ others
waits a (err e) others = others

-- The one at a place, and the rest.
abbrev pub pick {ℓ} : {A : Type ℓ} → ℕ → List A → Option (A × List A)
pick k [] = none
pick zero (x ∷ xs) = some (x, xs)
pick (suc k) (x ∷ xs) = elim (pick k xs) [ none ↦ none | some (y, ys) ↦ some (y, x ∷ ys) ]

abbrev pub count : Result TokenResponse → ℕ
count (ok r) = 1
count (err e) = 0

module _ (vk : Valkey) (l : Libraries) (s : Settings) (c : Collaborators) (raw : String) where
  unfoldable pub finish_picked :
      Option ((Attempt × User) × List (Attempt × User)) → Requests vk.Store → Requests vk.Store
  finish_picked none q = q
  finish_picked (some ((a, u), rest)) q =
      let (x, w) = in_session (finish_rotation vk l s c raw a u) q.world in
      record { world = w; waiting = rest; answered = count x + q.answered }

  unfoldable pub step : Event → Requests vk.Store → Requests vk.Store
  step (begins a) q =
      let (x, w) = in_session (begin_rotation vk l s c raw a) q.world in
      record q { world = w; waiting = waits a x q.waiting }
  step (finishes k) q = finish_picked (pick k q.waiting) q
  step (commits f) q = record q {
    world = record q.world { db = f q.world.committed; committed = f q.world.committed };
  }

  unfoldable pub run : List Event → Requests vk.Store → Requests vk.Store
  run [] q = q
  run (e ∷ es) q = run es (step e q)

  -- How many requests with the token a schedule answers with a new one.
  unfoldable pub exchanges : List Event → World vk.Store → ℕ
  exchanges es w = (run es (record { world = w; waiting = []; answered = 0 })).answered

  -- No new token has the hash of the presented one, and other sessions do not make it usable again.
  abbrev pub IsFair : Event → Type 0
  IsFair (begins a) = l.sha256 a.new.raw_token ≢ l.sha256 raw
  IsFair (finishes k) = Unit
  IsFair (commits f) =
      (d : Db) → Spent (l.sha256 raw) d.refresh_tokens → Spent (l.sha256 raw) (f d).refresh_tokens
