-- ===== src/Support/Repository.antt =====
-- `TicketRepository` of app/modules/support/repository.py: the statements on single tickets.
use customer_portal.Prelude.{
  ℕ, ◌*◌, ◌-◌, String, Bool, true, false, not, ◌&&◌, ◌||◌, Option, none, some, List, leb,
  is_not_distinct, if◌then◌else◌,
}
use customer_portal.Support.Models.{
  Ticket, TicketStatus, status_in, is_closed, satisfies_checks, server_error, ok, err, find_ticket,
  modify_ticket,
}
use customer_portal.Support.World.{Action}

-- `_RESOLUTION_WINDOW_DAYS`, in microseconds
unfoldable pub resolution_window : ℕ
resolution_window = 7 * 86400 * 1000000

-- A value given, or the one there is.
abbrev pub given_or {ℓ} : {A : Type ℓ} → Option A → Option A → Option A
given_or none old = old
given_or (some a) old = some a

-- The keyword arguments of `transition_status`.
pub record Transition : Type 0 where
  pub expected_statuses : List TicketStatus
  pub new_status : TicketStatus
  pub resolved_at : Option ℕ
  pub clear_resolved_at : Bool
  pub resolution_note : Option String
  pub closed_at : Option ℕ
  pub closed_by : Option ℕ
  pub require_resolved_within_window : Bool

-- resolved_at >= now() - interval '7 days'; NULL is not.
abbrev pub within_window : ℕ → Ticket → Bool
within_window now t = elim t.resolved_at [ none ↦ false | some r ↦ leb (now - resolution_window) r ]

-- The WHERE clause of `transition_status`, but for the id.
abbrev pub transition_where : ℕ → Transition → Ticket → Bool
transition_where now v t =
    status_in t.status v.expected_statuses
    && (not v.require_resolved_within_window || within_window now t)

-- Its SET clause, with the column's `onupdate=func.now()`.
abbrev pub transition_set : ℕ → Transition → Ticket → Ticket
transition_set now v t = record t {
  status = v.new_status;
  updated_at = now;
  resolved_at = if v.clear_resolved_at then none else given_or v.resolved_at t.resolved_at;
  resolution_note = given_or v.resolution_note t.resolution_note;
  closed_at = given_or v.closed_at t.closed_at;
  closed_by = given_or v.closed_by t.closed_by;
}

-- The WHERE and SET clauses of `assign_ticket`: `updated_at` is set to itself, so that `onupdate`
-- does not touch it.
abbrev pub assign_where : Option ℕ → Ticket → Bool
assign_where expected t = not (is_closed t.status) && is_not_distinct t.assignee_id expected

abbrev pub assign_set : ℕ → Ticket → Ticket
assign_set new_assignee t = record t { assignee_id = some new_assignee }

-- And of `unassign_ticket`.
abbrev pub unassign_where : Ticket → Bool
unassign_where t = not (is_closed t.status)

abbrev pub unassign_set : Ticket → Ticket
unassign_set t = record t { assignee_id = none }

-- The SET clause of `update`.
abbrev pub update_set : ℕ → Option TicketStatus → Option ℕ → Ticket → Ticket
update_set now status first_response_at t = record t {
  status = elim status [ none ↦ t.status | some s ↦ s ];
  first_response_at = given_or first_response_at t.first_response_at;
  updated_at = now;
}

module _ {Store : Type 0} where
  unfoldable pub get_by_id : ℕ → Action Store (Option Ticket)
  get_by_id id w = (ok (find_ticket id w.db.tickets), w)

  -- UPDATE tickets SET … WHERE id = … AND … RETURNING *. A row that fails a CHECK constraint is an
  -- IntegrityError, which nothing catches.
  unfoldable pub update_ticket :
      ℕ → (Ticket → Bool) → (Ticket → Ticket) → Action Store (Option Ticket)
  update_ticket id where_ set_ w = elim (find_ticket id w.db.tickets) [
    | none ↦ (ok none, w)
    | some t ↦
        if where_ t
        then if satisfies_checks (set_ t)
          then (
            ok (some (set_ t)),
            record w { db = record w.db { tickets = modify_ticket id set_ w.db.tickets } },
          )
          else (err server_error, w)
        else (ok none, w)
  ]

  unfoldable pub transition_status : ℕ → ℕ → Transition → Action Store (Option Ticket)
  unfolding update_ticket
  transition_status now id v = update_ticket id (transition_where now v) (transition_set now v)

  -- `update`: a value that is None is left as it is; with both None no UPDATE is issued.
  unfoldable pub update : ℕ → ℕ → Option TicketStatus → Option ℕ → Action Store (Option Ticket)
  unfolding update_ticket get_by_id
  update now id none none = get_by_id id
  update now id status first_response_at =
      update_ticket id (λ _. true) (update_set now status first_response_at)

  -- `assign_ticket`
  unfoldable pub assign : ℕ → ℕ → Option ℕ → Action Store (Option Ticket)
  unfolding update_ticket
  assign id new_assignee expected =
      update_ticket id (assign_where expected) (assign_set new_assignee)

  -- `unassign_ticket`
  unfoldable pub unassign : ℕ → Action Store (Option Ticket)
  unfolding update_ticket
  unassign id = update_ticket id unassign_where unassign_set
