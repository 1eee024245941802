-- ===== src/Support/Jobs/Laws.antt =====
-- What the jobs leave behind.
use mathlib.Core.List.{append-nil, append_assoc}
use customer_portal.Support.Lifecycle.Effects.{event_entry}
use customer_portal.Prelude.{
  none, some, [], refl, ℕ, ◌≡◌, ◌<◌, ◌-◌, ◌∷◌, List, true, not, is_some, contains, arith, keep,
  ◌++◌, ◌∙◌,
}
use customer_portal.Support.Models.{
  Ticket, Attachment, ok, is_resolved, find_attachment, system_actor_id, satisfies_checks,
}
use customer_portal.Support.World.{World, Moment, Collaborators, ◌>>=◌, AuditEvent, Db}
use customer_portal.Support.Repository.{transition_where, resolution_window}
use customer_portal.Support.Lifecycle.{reopening}
use customer_portal.Support.Attachments.{find_unbound_older_than, purge, is_unbound_older_than}
use customer_portal.Support.Jobs.{
  auto_close_where, auto_close_rows, auto_close_ids, auto_close_job,
  auto_close_resolved_past_window, record_closed, purge_job, purge_after, ids_of, auto_close_set,
}

-- At every instant a resolved ticket with a time of resolution is either within the window in which
-- the guarded UPDATE may reopen it, or due to be closed by the job, and never both.
pub auto_close_where-reopening :
    (now : ℕ) (t : Ticket)
    → is_resolved t.status ≡ true
    → is_some t.resolved_at ≡ true
    → auto_close_where now t ≡ not (transition_where now reopening t)
unfolding resolution_window
auto_close_where-reopening now t h h' = ground arith

auto_close_ids_again :
    (now at by : ℕ) (ts : List Ticket) → auto_close_ids now (auto_close_rows now at by ts) ≡ []
auto_close_ids_again now at by [] = refl
auto_close_ids_again now at by (t ∷ ts) = ground (arith, auto_close_ids_again now at by ts)

auto_close_rows_again :
    (now at by : ℕ) (ts : List Ticket)
    → auto_close_rows now at by (auto_close_rows now at by ts) ≡ auto_close_rows now at by ts
auto_close_rows_again now at by [] = refl
auto_close_rows_again now at by (t ∷ ts) = ground (arith, auto_close_rows_again now at by ts)

contains-purged :
    (cutoff : ℕ) (rows : List Attachment) (a : Attachment) (id : ℕ)
    → find_attachment id rows ≡ some a
    → is_unbound_older_than cutoff a ≡ true
    → contains id (ids_of (keep (is_unbound_older_than cutoff) rows)) ≡ true
contains-purged cutoff [] a id e h = ground arith
contains-purged cutoff (r ∷ rows) a id e h = ground (arith, contains-purged cutoff rows a id)

find_attachment-keep :
    (ids : List ℕ) (rows : List Attachment) (id : ℕ)
    → contains id ids ≡ true
    → find_attachment id (keep (λ (a : Attachment). not (contains a.id ids)) rows) ≡ none
find_attachment-keep ids [] id h = refl
find_attachment-keep ids (r ∷ rows) id h = ground (arith, find_attachment-keep ids rows id h)

-- The purge deletes an attachment that is not bound to a ticket and is older than 24 hours even if it
-- is bound to a reply, and whatever other sessions make of the table between its two statements.
pub purge_job-replied :
    (others : List Attachment → List Attachment) (now id reply : ℕ) (rows : List Attachment)
    (a : Attachment)
    → find_attachment id rows ≡ some a
    → a.ticket_id ≡ none
    → a.ticket_reply_id ≡ some reply
    → a.created_at < now - purge_after
    → find_attachment id (purge_job others now rows) ≡ none
unfolding purge_job find_unbound_older_than purge
purge_job-replied others now id reply rows a e unbound bound old =
    find_attachment-keep (ids_of (keep (is_unbound_older_than (now - purge_after)) rows))
      (others rows) id (contains-purged (now - purge_after) rows a id e (ground arith))

-- The rows that the job writes meet the CHECK constraints, whatever the old ones were.
satisfies_checks-auto_close_set :
    (now at by : ℕ) (t : Ticket) → satisfies_checks (auto_close_set now at by t) ≡ true
satisfies_checks-auto_close_set now at by t = refl

-- `record_event` of the job.
abbrev pub closed_entry : Collaborators → ℕ → AuditEvent
closed_entry c id = event_entry c "ticket_auto_closed" system_actor_id id

abbrev pub closed_entries : Collaborators → List ℕ → List AuditEvent
closed_entries c [] = []
closed_entries c (id ∷ ids) = closed_entry c id ∷ closed_entries c ids

-- The database after a run.
abbrev pub auto_closed : Collaborators → Moment → Db → Db
auto_closed c m d = record d {
  tickets = auto_close_rows m.db_now m.utc_now system_actor_id d.tickets;
  audit = d.audit ++ closed_entries c (auto_close_ids m.db_now d.tickets);
}

auto_closed_again :
    (c : Collaborators) (m : Moment) (d : Db)
    → auto_closed c m (auto_closed c m d) ≡ auto_closed c m d
auto_closed_again c m d =
    let e = auto_close_ids_again m.db_now m.utc_now system_actor_id d.tickets in
    let f = auto_close_rows_again m.db_now m.utc_now system_actor_id d.tickets in
    rw (e, f, append-nil (d.audit ++ closed_entries c (auto_close_ids m.db_now d.tickets))) refl

module _ {Store : Type 0} (c : Collaborators) where
  record_closed-entries :
      (ids : List ℕ) (w : World Store)
      → record_closed c ids w
        ≡ (ok tt, record w { db = record w.db { audit = w.db.audit ++ closed_entries c ids } })
  unfolding record_closed ◌>>=◌
  record_closed-entries [] w = rw (append-nil w.db.audit) refl
  record_closed-entries (id ∷ ids) w =
      record_closed-entries ids
        (record w { db = record w.db { audit = w.db.audit ++ closed_entry c id ∷ [] } })
      ∙ rw (append_assoc w.db.audit (closed_entry c id ∷ []) (closed_entries c ids)) refl

module _ {Store : Type 0} (c : Collaborators) (m : Moment) (w : World Store) where
  auto_close_job-commits : auto_close_job c m w ≡ (
    ok (auto_close_ids m.db_now w.committed.tickets),
    record w { db = auto_closed c m w.committed; committed = auto_closed c m w.committed },
  )
  unfolding auto_close_job auto_close_resolved_past_window ◌>>=◌
  auto_close_job-commits =
      rw
        (record_closed-entries c (auto_close_ids m.db_now w.committed.tickets) (record w {
          db = record w.committed {
            tickets = auto_close_rows m.db_now m.utc_now system_actor_id w.committed.tickets;
          };
        }))
        refl

module _ {Store : Type 0} (c : Collaborators) (m : Moment) (w : World Store) where
  -- The auto-close job closes the resolved tickets past the window, with one audit entry each, and a
  -- second run at the same instant closes nothing and leaves the world as the first run left it.
  auto_close_job_twice :
      ((auto_close_job c m w).1.committed ≡ auto_closed c m w.committed)
      × (auto_close_job c m (auto_close_job c m w).1 ≡ (ok [], (auto_close_job c m w).1))
  auto_close_job_twice =
      let d = auto_closed c m w.committed in
      let w' : World Store = record w { db = d; committed = d } in
      let e = auto_close_ids_again m.db_now m.utc_now system_actor_id w.committed.tickets in
      rw (auto_close_job-commits c m w)
        (refl, auto_close_job-commits c m w' ∙ rw (auto_closed_again c m w.committed, e) refl)
