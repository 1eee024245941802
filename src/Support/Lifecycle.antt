-- ===== src/Support/Lifecycle.antt =====
-- `TicketService` of app/modules/support/service.py: the state machine of a ticket, and its
-- assignment. Each method runs in a session of its own.
pub mod Effects
pub mod Outcomes
use customer_portal.Prelude.{
  ℕ, String, Bool, true, false, not, ◌&&◌, ◌||◌, Option, none, some, List, [], ◌∷◌, ◌==◌,
  if◌then◌else◌,
}
use customer_portal.Support.Models.{
  Ticket, TicketStatus, open_, waiting_on_support, waiting_on_customer, resolved, closed,
  TicketEvent, resolve, close, reopen, ActorKind, is_agent, is_customer, Scope, can_read, can_write,
  status_in, is_closed, SupportError, ticket_not_found, insufficient_permission,
  invalid_state_transition, validation_failed, assignment_conflict, ok, err, TicketStateRead,
  AgentTicketStateRead, state_read, agent_state_read, find_ticket,
}
use customer_portal.Support.World.{
  Action, Collaborators, Moment, AccountStatus, deactivated, Email, ticket_resolved, ◌>>=◌, ◌>>◌,
  pure, raise, or_raise, raise_if, send_to, interleave, commit, in_session, send, record_event,
}
use customer_portal.Support.Repository.{Transition, get_by_id, transition_status, assign, unassign}

-- `_ALLOWED_EVENTS_BY_STATUS`
unfoldable pub allowed_events : TicketStatus → List TicketEvent
allowed_events open_ = resolve ∷ close ∷ []
allowed_events waiting_on_support = resolve ∷ close ∷ []
allowed_events waiting_on_customer = resolve ∷ close ∷ []
allowed_events resolved = close ∷ reopen ∷ []
allowed_events closed = []

abbrev pub resolve_eligible : List TicketStatus
resolve_eligible = open_ ∷ waiting_on_support ∷ waiting_on_customer ∷ []

abbrev pub close_eligible : List TicketStatus
close_eligible = open_ ∷ waiting_on_support ∷ waiting_on_customer ∷ resolved ∷ []

abbrev pub reopen_eligible : List TicketStatus
reopen_eligible = resolved ∷ []

-- The transition that each endpoint asks of `transition_status`.
abbrev pub resolving : ℕ → String → Transition
resolving now note = record {
  expected_statuses = resolve_eligible;
  new_status = resolved;
  resolved_at = some now;
  clear_resolved_at = false;
  resolution_note = some note;
  closed_at = none;
  closed_by = none;
  require_resolved_within_window = false;
}

abbrev pub closing : ℕ → ℕ → Transition
closing now actor = record {
  expected_statuses = close_eligible;
  new_status = closed;
  resolved_at = none;
  clear_resolved_at = false;
  resolution_note = none;
  closed_at = some now;
  closed_by = some actor;
  require_resolved_within_window = false;
}

abbrev pub reopening : Transition
reopening = record {
  expected_statuses = reopen_eligible;
  new_status = waiting_on_support;
  resolved_at = none;
  clear_resolved_at = true;
  resolution_note = none;
  closed_at = none;
  closed_by = none;
  require_resolved_within_window = true;
}

abbrev pub is_deactivated : Option AccountStatus → Bool
is_deactivated (some deactivated) = true
is_deactivated _ = false

module _ {Store : Type 0} where
  -- The lookup and ownership check that the methods begin with.
  unfoldable pub load_visible : ℕ → ℕ → ActorKind → Action Store Ticket
  load_visible ticket_id actor kind = do
    found ← get_by_id ticket_id
    ticket ← or_raise found ticket_not_found
    raise_if (is_customer kind && not (ticket.requester_id == actor)) ticket_not_found
    pure ticket

  -- Best effort, after the commit.
  unfoldable pub notify_resolved : Collaborators → Ticket → String → Action Store (Unit {0})
  notify_resolved c t note =
      send_to (c.email_of t.requester_id) λ to. send c (ticket_resolved to t.ticket_number note)

  unfoldable pub resolve_ticket :
      Collaborators → Moment → ℕ → ℕ → ActorKind → String → Action Store TicketStateRead
  resolve_ticket c m ticket_id actor kind note = in_session do
    ticket ← load_visible ticket_id actor kind
    raise_if (not (status_in ticket.status resolve_eligible))
        (invalid_state_transition (allowed_events ticket.status))
    raise_if (not (is_agent kind)) insufficient_permission
    interleave m.others
    moved ← transition_status m.db_now ticket_id (resolving m.utc_now note)
    t ← or_raise moved (invalid_state_transition (allowed_events ticket.status))
    record_event c "ticket_resolved" actor ticket_id none
    commit
    notify_resolved c t note
    pure (state_read t)

  unfoldable pub close_ticket :
      Collaborators → Moment → ℕ → ℕ → ActorKind → Action Store TicketStateRead
  close_ticket c m ticket_id actor kind = in_session do
    ticket ← load_visible ticket_id actor kind
    raise_if (not (status_in ticket.status close_eligible))
        (invalid_state_transition (allowed_events ticket.status))
    interleave m.others
    moved ← transition_status m.db_now ticket_id (closing m.utc_now actor)
    t ← or_raise moved (invalid_state_transition (allowed_events ticket.status))
    record_event c "ticket_closed" actor ticket_id none
    commit
    pure (state_read t)

  unfoldable pub reopen_ticket :
      Collaborators → Moment → ℕ → ℕ → ActorKind → Action Store TicketStateRead
  reopen_ticket c m ticket_id actor kind = in_session do
    ticket ← load_visible ticket_id actor kind
    raise_if (not (status_in ticket.status reopen_eligible))
        (invalid_state_transition (allowed_events ticket.status))
    interleave m.others
    moved ← transition_status m.db_now ticket_id reopening
    t ← or_raise moved (invalid_state_transition (allowed_events ticket.status))
    record_event c "ticket_reopened" actor ticket_id none
    commit
    pure (state_read t)

  -- The permission gate of the two assignment methods, before any lookup.
  unfoldable pub assignment_gate : List Scope → Action Store (Unit {0})
  assignment_gate scopes =
      raise_if (not (can_write scopes))
        (if can_read scopes then insufficient_permission else ticket_not_found)

  -- The checks of `assign_ticket`, up to its first write.
  unfoldable pub load_assignable : Collaborators → ℕ → List Scope → ℕ → Action Store Ticket
  load_assignable c ticket_id scopes assignee = do
    assignment_gate scopes
    found ← get_by_id ticket_id
    ticket ← or_raise found ticket_not_found
    raise_if (is_closed ticket.status) (invalid_state_transition [])
    raise_if (not (can_write (c.scopes_of assignee))) (validation_failed "assignee_id")
    raise_if (is_deactivated (c.account_status assignee)) (validation_failed "assignee_id")
    pure ticket

  unfoldable pub assign_ticket :
      Collaborators → Moment → ℕ → ℕ → List Scope → ℕ → Action Store AgentTicketStateRead
  assign_ticket c m ticket_id actor scopes assignee = in_session do
    ticket ← load_assignable c ticket_id scopes assignee
    interleave m.others
    updated ← assign ticket_id assignee ticket.assignee_id
    t ← or_raise updated assignment_conflict
    record_event c "ticket_assigned" actor ticket_id none
    commit
    pure (agent_state_read t)

  unfoldable pub unassign_ticket :
      Collaborators → Moment → ℕ → ℕ → List Scope → Action Store AgentTicketStateRead
  unassign_ticket c m ticket_id actor scopes = in_session do
    assignment_gate scopes
    found ← get_by_id ticket_id
    ticket ← or_raise found ticket_not_found
    raise_if (is_closed ticket.status) (invalid_state_transition [])
    interleave m.others
    updated ← unassign ticket_id
    t ← or_raise updated (invalid_state_transition [])
    record_event c "ticket_unassigned" actor ticket_id none
    commit
    pure (agent_state_read t)
