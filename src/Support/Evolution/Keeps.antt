-- ===== src/Support/Evolution/Keeps.antt =====
-- Actions under which the database only evolves, one rule for each way to build an action.
use customer_portal.Support.Models.{Result, SupportError, ok, err, IsChecked}
use customer_portal.Prelude.{
  none, Bool, ◌≡◌, Option, true, String, Bool-cases, false, ℕ, refl, some, inl, if◌then◌else◌, inr,
}
use customer_portal.Support.World.{
  Moment, Db, send, World, or_raise, ◌>>=◌, raise_if, interleave, pure, record_event, raise,
  send_to, in_session, commit, on_error, Action, handled, Collaborators, after, Email,
}
use customer_portal.Support.Evolution.{Evolves}
use customer_portal.Support.Evolution.Rules.{Evolves-refl, Evolves-trans}

-- What the session sees, and what is committed, has evolved from `start`.
pub record Since (start : Db) {Store : Type 0} (w : World Store) : Type 0 where
  pub seen : Evolves start w.db
  pub kept : Evolves start w.committed

-- Whether it returns or raises.
pub record Keeps (start : Db) {Store A : Type 0} (m : Action Store A) : Type 0 where
  pub at : (w : World Store) → Since start w → Since start (m w).1

-- What the other sessions commit is an evolution too.
pub record Rely (m : Moment) : Type 0 where
  pub at : (d : Db) → IsChecked d.tickets → Evolves d (m.others d)

module _ {start : Db} {Store A : Type 0} where
  pub Keeps-pure : (a : A) → Keeps start (pure {Store = Store} a)
  unfolding pure
  Keeps-pure a = record { at = λ w h. h }

  pub Keeps-raise : (e : SupportError) → Keeps start (raise {Store = Store} {A = A} e)
  unfolding raise
  Keeps-raise e = record { at = λ w h. h }

  pub Keeps-or_raise :
      (o : Option A) (e : SupportError) → Keeps start (or_raise {Store = Store} o e)
  unfolding or_raise
  Keeps-or_raise none e = record { at = λ w h. h }
  Keeps-or_raise (some a) e = record { at = λ w h. h }

  pub Keeps-if :
      (b : Bool) (m n : Action Store A)
      → (b ≡ true → Keeps start m)
      → (b ≡ false → Keeps start n)
      → Keeps start (if b then m else n)
  Keeps-if true m n km kn = km refl
  Keeps-if false m n km kn = kn refl

  handled-Keeps :
      (r : Result A) (w : World Store) (cleanup : Action Store Unit)
      → Keeps start cleanup
      → Since start w
      → Since start (handled r cleanup w).1
  handled-Keeps (ok a) w cleanup k h = h
  handled-Keeps (err e) w cleanup k h = k.at w h

  pub Keeps-on_error :
      (m : Action Store A) (cleanup : Action Store Unit)
      → Keeps start m
      → Keeps start cleanup
      → Keeps start (on_error m cleanup)
  unfolding on_error
  Keeps-on_error m cleanup km kc = record {
    at = λ w h. let (r, w') = m w in handled-Keeps r w' cleanup kc (km.at w h);
  }

  pub Keeps-in_session : (m : Action Store A) → Keeps start m → Keeps start (in_session m)
  unfolding in_session
  Keeps-in_session m km = record {
    at = λ w h.
        let r : Since start (m (record w { db = w.committed })).1 =
          km.at (record w { db = w.committed }) (record { seen = h.kept; kept = h.kept }) in
        record { seen = r.kept; kept = r.kept };
  }

module _ {start : Db} {Store A B : Type 0} where
  continue-Keeps :
      (r : Result A) (w : World Store) (f : A → Action Store B)
      → ((a : A) → Keeps start (f a))
      → Since start w
      → Since start (after r f w).1
  continue-Keeps (ok a) w f kf h = (kf a).at w h
  continue-Keeps (err e) w f kf h = h

  pub Keeps-bind :
      (m : Action Store A) (f : A → Action Store B)
      → Keeps start m
      → ((a : A) → Keeps start (f a))
      → Keeps start (m >>= f)
  unfolding ◌>>=◌
  Keeps-bind m f km kf = record {
    at = λ w h. let (r, w') = m w in continue-Keeps r w' f kf (km.at w h);
  }

module _ {start : Db} {Store : Type 0} where
  pub Keeps-raise_if : (b : Bool) (e : SupportError) → Keeps start (raise_if {Store = Store} b e)
  unfolding raise_if
  Keeps-raise_if b e = record { at = λ w h. h }

  pub Keeps-commit : Keeps start (commit {Store = Store})
  unfolding commit
  Keeps-commit = record { at = λ w h. record { seen = h.seen; kept = h.seen } }

  pub Keeps-interleave : (m : Moment) → Rely m → Keeps start (interleave {Store = Store} m.others)
  unfolding interleave
  Keeps-interleave m rely = record {
    at = λ w h. record {
      seen = Evolves-trans start w.db (m.others w.db) h.seen (rely.at w.db h.seen.checked);
      kept =
          Evolves-trans start w.committed (m.others w.committed) h.kept
            (rely.at w.committed h.kept.checked);
    };
  }

  pub Keeps-send : (c : Collaborators) (e : Email) → Keeps start (send {Store = Store} c e)
  unfolding send
  Keeps-send c e = record {
    at = λ w h. elim (Bool-cases (c.delivers e)) [
      | inl p ↦ rw p (record { seen = h.seen; kept = h.kept })
      | inr p ↦ rw p h
    ];
  }

  pub Keeps-send_to :
      (o : Option String) (k : String → Action Store Unit)
      → ((to : String) → Keeps start (k to))
      → Keeps start (send_to o k)
  unfolding send_to
  Keeps-send_to none k h = record { at = λ w s. s }
  Keeps-send_to (some to) k h = record { at = λ w s. (h to).at w s }

  -- A write to `db` alone, which is an evolution.
  pub Since-write :
      (w : World Store) (d : Db)
      → Since start w
      → Evolves w.db d
      → Since start (record w { db = d })
  Since-write w d h e = record { seen = Evolves-trans start w.db d h.seen e; kept = h.kept }

  pub Keeps-record_event :
      (c : Collaborators) (event : String) (actor target : ℕ) (payload : Option (String × String))
      → Keeps start (record_event {Store = Store} c event actor target payload)
  unfolding record_event
  Keeps-record_event c event actor target payload = record {
    at = λ w h.
        let same : Evolves w.db w.db = Evolves-refl w.db h.seen.checked in
        Since-write w _ h (record {
          tickets = same.tickets;
          attachments = same.attachments;
          audit = (_, refl);
          replies = same.replies;
          checked = same.checked;
        });
  }
