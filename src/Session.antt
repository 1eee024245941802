-- ===== src/Session.antt =====
-- A request's database session (app/db/dependencies.py): state with errors, whose writes are lost
-- unless they are committed. `Db` is the database, `Store` the cache server's, `Mail` the messages
-- that are sent, and `Error` what the service raises.
use customer_portal.Prelude.{
  Bool, Option, none, some, List, [], ◌∷◌, ◌++◌, if◌then◌else◌, ◌≡◌, refl, ◌⊎◌, inl, inr,
}

pub data Result (Error A : Type 0) : Type 0 where
  ok : A → Result Error A
  err : Error → Result Error A

pub Result-cases :
    {Error A : Type 0} (x : Result Error A) → ((a : A) × (x ≡ ok a)) ⊎ ((e : Error) × (x ≡ err e))
Result-cases (ok a) = inl (a, refl)
Result-cases (err e) = inr (e, refl)

-- `db` is what the session sees, `committed` what is left if it ends now.
pub record State (Db Store Mail : Type 0) : Type 0 where
  pub db : Db
  pub committed : Db
  pub store : Store
  pub outbox : List Mail

abbrev pub Action : Type 0 → Type 0 → Type 0 → Type 0 → Type 0 → Type 0
Action Db Store Mail Error A = State Db Store Mail → Result Error A × State Db Store Mail

abbrev pub caught : {Error A : Type 0} → Result Error A → Result Error (Option A)
caught (ok a) = ok (some a)
caught (err e) = ok none

module _ {Db Store Mail Error : Type 0} where
  unfoldable pub pure : {A : Type 0} → A → Action Db Store Mail Error A
  pure a w = (ok a, w)

  unfoldable pub raise : {A : Type 0} → Error → Action Db Store Mail Error A
  raise e w = (err e, w)

  unfoldable pub or_raise : {A : Type 0} → Option A → Error → Action Db Store Mail Error A
  or_raise none e w = (err e, w)
  or_raise (some a) e w = (ok a, w)

  unfoldable pub raise_if : Bool → Error → Action Db Store Mail Error (Unit {0})
  raise_if b e w = (if b then err e else ok tt, w)

  -- The other sessions' commits, seen by this one's next statement (READ COMMITTED).
  unfoldable pub interleave : (Db → Db) → Action Db Store Mail Error (Unit {0})
  interleave f w = (ok tt, record w { db = f w.db; committed = f w.committed })

  -- A statement that returns nothing.
  unfoldable pub modify_db : (Db → Db) → Action Db Store Mail Error (Unit {0})
  modify_db f w = (ok tt, record w { db = f w.db })

  -- A SELECT.
  unfoldable pub query : {A : Type 0} → (Db → A) → Action Db Store Mail Error A
  query f w = (ok (f w.db), w)

  -- `session.commit()`
  unfoldable pub commit : Action Db Store Mail Error (Unit {0})
  commit w = (ok tt, record w { committed = w.db })

  -- The session of `get_db_session` begins with what is committed, and is closed when the request
  -- ends, by a response or an error: what was not committed is rolled back.
  unfoldable pub in_session :
      {A : Type 0} → Action Db Store Mail Error A → Action Db Store Mail Error A
  in_session m w =
      let (r, w') = m (record w { db = w.committed }) in (r, record w' { db = w'.committed })

  -- `try: send … except Exception: logger.exception(…)`, with a server that accepts or fails.
  unfoldable pub try_send : Bool → Mail → Action Db Store Mail Error (Unit {0})
  try_send accepted e w = (ok tt, if accepted then record w { outbox = w.outbox ++ e ∷ [] } else w)

  -- An exception ends the method.
  abbrev pub after :
      {A B : Type 0}
      → Result Error A
      → (A → Action Db Store Mail Error B)
      → Action Db Store Mail Error B
  after (ok a) f w = f a w
  after (err e) f w = (err e, w)

  infixl 5 ◌>>=◌ ◌>>◌
  -- Opening this opens the actions above too.
  unfoldable pub ◌>>=◌ :
      {A B : Type 0}
      → Action Db Store Mail Error A
      → (A → Action Db Store Mail Error B)
      → Action Db Store Mail Error B
  unfolding pure raise or_raise raise_if interleave modify_db query commit in_session try_send
  ◌>>=◌ m f w = let (r, w') = m w in after r f w'

  abbrev pub ◌>>◌ :
      {A B : Type 0}
      → Action Db Store Mail Error A
      → Action Db Store Mail Error B
      → Action Db Store Mail Error B
  m >> k = m >>= λ _. k

  abbrev pub handled :
      {A : Type 0}
      → Result Error A
      → Action Db Store Mail Error (Unit {0})
      → Action Db Store Mail Error A
  handled (ok a) cleanup w = (ok a, w)
  handled (err e) cleanup w = (err e, (cleanup w).1)

  -- `except Exception: await cleanup; raise`
  unfoldable pub on_error :
      {A : Type 0}
      → Action Db Store Mail Error A
      → Action Db Store Mail Error (Unit {0})
      → Action Db Store Mail Error A
  on_error m cleanup w = let (r, w') = m w in handled r cleanup w'

  -- `try: … except Exception: return None`: None where it fails.
  unfoldable pub attempt :
      {A : Type 0} → Action Db Store Mail Error A → Action Db Store Mail Error (Option A)
  attempt m w = let (r, w') = m w in (caught r, w')
