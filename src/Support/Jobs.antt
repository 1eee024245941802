-- ===== src/Support/Jobs.antt =====
-- The jobs that cron runs: scripts/auto_close_resolved_tickets.py and
-- scripts/purge_unbound_attachments.py, with `auto_close_resolved_past_window` of
-- app/modules/support/repository.py.
use customer_portal.Prelude.{
  ℕ, ◌*◌, ◌-◌, ◌&&◌, Bool, true, false, Option, none, some, List, [], ◌∷◌, ltb, if◌then◌else◌,
}
use customer_portal.Support.Models.{Ticket, Attachment, closed, is_resolved, ok, system_actor_id}
use customer_portal.Support.World.{
  Action, Collaborators, Moment, ◌>>=◌, ◌>>◌, pure, commit, in_session, record_event,
}
use customer_portal.Support.Repository.{resolution_window}
use customer_portal.Support.Attachments.{find_unbound_older_than, purge}
pub mod Laws

-- The WHERE clause of `auto_close_resolved_past_window`: a NULL `resolved_at` is not older.
abbrev pub auto_close_where : ℕ → Ticket → Bool
auto_close_where now t =
    is_resolved t.status
    && elim t.resolved_at [ none ↦ false | some r ↦ ltb r (now - resolution_window) ]

-- Its SET clause, with the column's `onupdate=func.now()`.
abbrev pub auto_close_set : ℕ → ℕ → ℕ → Ticket → Ticket
auto_close_set now closed_at closed_by t = record t {
  status = closed;
  closed_at = some closed_at;
  closed_by = some closed_by;
  updated_at = now;
}

abbrev pub auto_close_rows : ℕ → ℕ → ℕ → List Ticket → List Ticket
auto_close_rows now closed_at closed_by [] = []
auto_close_rows now closed_at closed_by (t ∷ ts) =
    (if auto_close_where now t then auto_close_set now closed_at closed_by t else t)
    ∷ auto_close_rows now closed_at closed_by ts

-- RETURNING id
abbrev pub auto_close_ids : ℕ → List Ticket → List ℕ
auto_close_ids now [] = []
auto_close_ids now (t ∷ ts) =
    if auto_close_where now t then t.id ∷ auto_close_ids now ts else auto_close_ids now ts

abbrev pub ids_of : List Attachment → List ℕ
ids_of [] = []
ids_of (a ∷ as_) = a.id ∷ ids_of as_

-- `_UNBOUND_ATTACHMENT_PURGE_AFTER_HOURS`, in microseconds
abbrev pub purge_after : ℕ
purge_after = 24 * 3600 * 1000000

-- `main` of purge_unbound_attachments.py, on the table: `others` is what other sessions make of it
-- between the SELECT and the DELETE.
unfoldable pub purge_job :
    (List Attachment → List Attachment) → ℕ → List Attachment → List Attachment
unfolding find_unbound_older_than purge
purge_job others now rows =
    purge (ids_of (find_unbound_older_than (now - purge_after) rows)) (others rows)

module _ {Store : Type 0} where
  -- No CHECK constraint refuses the new rows.
  unfoldable pub auto_close_resolved_past_window : ℕ → ℕ → ℕ → Action Store (List ℕ)
  auto_close_resolved_past_window now closed_at closed_by w = (
    ok (auto_close_ids now w.db.tickets),
    record w {
      db = record w.db { tickets = auto_close_rows now closed_at closed_by w.db.tickets };
    },
  )

  -- `for ticket_id in closed_ids: await audit_service.record_event(…)`
  unfoldable pub record_closed : Collaborators → List ℕ → Action Store (Unit {0})
  record_closed c [] = pure tt
  record_closed c (id ∷ ids) = do
    record_event c "ticket_auto_closed" system_actor_id id none
    record_closed c ids

  -- `main` of auto_close_resolved_tickets.py
  unfoldable pub auto_close_job : Collaborators → Moment → Action Store (List ℕ)
  auto_close_job c m = in_session do
    ids ← auto_close_resolved_past_window m.db_now m.utc_now system_actor_id
    record_closed c ids
    commit
    pure ids
