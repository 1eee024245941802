-- ===== src/Users/Refresh/Once.antt =====
-- How often one refresh token can be exchanged.
use customer_portal.Users.Refresh.Spent.{
  Spent, finish_rotation-Finishes, Finishes, begin_rotation-Spent,
}
use customer_portal.Users.Refresh.Schedules.{
  waits, step, run, pick, finish_picked, exchanges, Requests, Event, IsFair, count, begins,
  finishes, commits,
}
use customer_portal.Users.Refresh.Phases.{
  finish_rotation, begin_rotation, Attempt, then_finish, rotate_refresh_token-halves,
}
use customer_portal.Session.{◌>>=◌, in_session}
use customer_portal.Prelude.{
  zero, suc, ℕ, ◌+◌, ◌≤◌, String, ◌≡◌, ◌≢◌, refl, inl, inr, Option, none, some, List, [], ◌∷◌, All,
  arith, suc, ◌⊎◌,
}
use customer_portal.Valkey.{Valkey}
use customer_portal.Users.Models.{User}
use customer_portal.Users.World.{World, Result, ok, err, Settings, Libraries, Collaborators}
use customer_portal.Users.Refresh.{TokenResponse, rotate_refresh_token}

module _ (vk : Valkey) (l : Libraries) (s : Settings) (c : Collaborators) (raw : String) where
  abbrev Ready : Attempt × User → Type 0
  Ready (a, u) = l.sha256 a.new.raw_token ≢ l.sha256 raw

  -- At most one request was answered, and only if the token is spent.
  abbrev Counted : Requests vk.Store → Type 0
  Counted q =
      All Ready q.waiting
      × ((q.answered ≡ 0)
          ⊎ ((q.answered ≡ 1) × Spent (l.sha256 raw) q.world.committed.refresh_tokens))

-- What holds of all holds of the picked one and of the rest.
abbrev PickedAll : {A : Type 0} → (A → Type 0) → Option (A × List A) → Type 0
PickedAll P none = Unit
PickedAll P (some (x, ys)) = P x × All P ys

pick_later :
    {A : Type 0} (P : A → Type 0) (x : A) (o : Option (A × List A))
    → P x
    → PickedAll P o
    → PickedAll P (elim o [ none ↦ none | some (y, ys) ↦ some (y, x ∷ ys) ])
pick_later P x none p h = tt
pick_later P x (some (y, ys)) p h = (h.0, (p, h.1))

pick-All : {A : Type 0} (P : A → Type 0) (k : ℕ) (xs : List A) → All P xs → PickedAll P (pick k xs)
pick-All P k [] h = tt
pick-All P zero (x ∷ xs) h = (h.0, h.1)
pick-All P (suc k) (x ∷ xs) h = pick_later P x (pick k xs) h.0 (pick-All P k xs h.1)

module _ (vk : Valkey) (l : Libraries) (s : Settings) (c : Collaborators) (raw : String) where
  finish-Counted :
      (a : Attempt) (u : User) (rest : List (Attempt × User)) (n : ℕ) (w w' : World vk.Store)
      (x : Result TokenResponse)
      → All (Ready vk l s c raw) rest
      → (n ≡ 0) ⊎ ((n ≡ 1) × Spent (l.sha256 raw) w.committed.refresh_tokens)
      → Finishes vk l s c raw w.committed (x, w')
      → Counted vk l s c raw (record { world = w'; waiting = rest; answered = count x + n })
  finish-Counted a u rest n w w' (ok r) ready (inl none_) h =
      (ready, inr (omega (arith, none_), h.1))
  finish-Counted a u rest n w w' (ok r) ready (inr (one, spent)) h =
      absurd (ground (arith, spent, h.0))
  finish-Counted a u rest n w w' (err e) ready (inl none_) h = (ready, inl (omega (arith, none_)))
  finish-Counted a u rest n w w' (err e) ready (inr (one, spent)) h =
      (ready, inr (omega (arith, one), h spent))

  finish_picked-Counted :
      (o : Option ((Attempt × User) × List (Attempt × User))) (q : Requests vk.Store)
      → PickedAll (Ready vk l s c raw) o
      → Counted vk l s c raw q
      → Counted vk l s c raw (finish_picked vk l s c raw o q)
  unfolding finish_picked
  finish_picked-Counted none q picked counted = counted
  finish_picked-Counted (some ((a, u), rest)) q picked counted =
      let (x, w) = in_session (finish_rotation vk l s c raw a u) q.world in
      finish-Counted a u rest q.answered q.world w x picked.1 counted.1
        (finish_rotation-Finishes vk l s c raw a u q.world picked.0)

  waits-All :
      (a : Attempt) (x : Result User) (waiting : List (Attempt × User))
      → l.sha256 a.new.raw_token ≢ l.sha256 raw
      → All (Ready vk l s c raw) waiting
      → All (Ready vk l s c raw) (waits a x waiting)
  waits-All a (ok u) waiting differs ready = (differs, ready)
  waits-All a (err e) waiting differs ready = ready

  step-Counted :
      (e : Event) (q : Requests vk.Store)
      → IsFair vk l s c raw e
      → Counted vk l s c raw q
      → Counted vk l s c raw (step vk l s c raw e q)
  unfolding step
  step-Counted (begins a) q fair (ready, inl none_) =
      (waits-All a _ q.waiting fair ready, inl none_)
  step-Counted (begins a) q fair (ready, inr (one, spent)) = (
    waits-All a _ q.waiting fair ready,
    inr (one, begin_rotation-Spent vk l s c raw a q.world spent),
  )
  step-Counted (finishes k) q fair counted =
      finish_picked-Counted (pick k q.waiting) q
        (pick-All (Ready vk l s c raw) k q.waiting counted.0) counted
  step-Counted (commits f) q fair (ready, inl none_) = (ready, inl none_)
  step-Counted (commits f) q fair (ready, inr (one, spent)) =
      (ready, inr (one, fair q.world.committed spent))

  run-le-one :
      (es : List Event) (q : Requests vk.Store)
      → All (IsFair vk l s c raw) es
      → Counted vk l s c raw q
      → (run vk l s c raw es q).answered ≤ 1
  unfolding run
  run-le-one [] q fair (ready, inl none_) = omega (arith, none_)
  run-le-one [] q fair (ready, inr (one, spent)) = omega (arith, one)
  run-le-one (e ∷ es) q fair counted =
      run-le-one es (step vk l s c raw e q) fair.1 (step-Counted e q fair.0 counted)

  -- Requests that present the same refresh token may overlap in any way: each first reads, and writes
  -- later, and the reads and writes of the others and the commits of other sessions come in any order in
  -- between. In every such schedule at most one request is answered with a new token, if no new token
  -- has the hash of the presented one and other sessions do not make a spent token usable again. And
  -- rotate_refresh_token is, for every request, those two halves with what other sessions commit
  -- between them.
  pub exchanges-le-one :
      (es : List Event) (a : Attempt) (w : World vk.Store)
      → All (IsFair vk l s c raw) es
      → (exchanges vk l s c raw es w ≤ 1)
        × (rotate_refresh_token vk l s c a.moment a.client a.new (some raw) w
            ≡ in_session (begin_rotation vk l s c raw a >>= then_finish vk l s c raw a) w)
  unfolding exchanges
  exchanges-le-one es a w fair = (
    run-le-one es (record { world = w; waiting = []; answered = 0 }) fair (tt, inl refl),
    rotate_refresh_token-halves vk l s c raw a w,
  )
