-- ===== src/Support/Lifecycle/Effects.antt =====
-- What each method of the ticket service commits, and when.
use customer_portal.Prelude.{
  ℕ, String, ◌≡◌, ◌⊎◌, Bool, true, Option, none, some, List, [], ◌∷◌, ◌++◌, arith, OnRow,
}
use customer_portal.Support.Models.{
  Ticket, ActorKind, Result, ok, err, satisfies_checks, state_read, agent_state_read, Scope,
  find_ticket, modify_ticket,
}
use customer_portal.Support.World.{Db, World, Moment, Collaborators, AuditEvent, ◌>>=◌}
use customer_portal.Support.Repository.{
  get_by_id, update_ticket, assign, unassign, transition_status, transition_where, transition_set,
  assign_where, assign_set, unassign_where, unassign_set,
}
use customer_portal.Support.Lifecycle.{
  resolve_ticket, close_ticket, reopen_ticket, assign_ticket, unassign_ticket, resolving, closing,
  reopening, load_visible, notify_resolved, assignment_gate, load_assignable,
}

-- The assignee that a read of the ticket finds.
abbrev pub assignee_in : Db → ℕ → Option ℕ
assignee_in d id = elim (find_ticket id d.tickets) [ none ↦ none | some t ↦ t.assignee_id ]

-- `record_event` of this module.
abbrev pub event_entry : Collaborators → String → ℕ → ℕ → AuditEvent
event_entry c event actor target = record {
  category = "tickets";
  event = event;
  actor_id = actor;
  actor_role = c.actor_role actor;
  target_id = some target;
  outcome = some "success";
  payload = none;
}

abbrev pub written : ℕ → (Ticket → Ticket) → AuditEvent → Db → Db
written id set_ entry d = record d {
  tickets = modify_ticket id set_ d.tickets;
  audit = d.audit ++ entry ∷ [];
}

module _ {Store A : Type 0} where
  -- A method that ends well has committed, on top of what the other sessions committed, one UPDATE
  -- of a row that met its WHERE clause, together with one audit entry, and returns what `read` shows
  -- of the new row; one that raises has committed nothing.
  abbrev pub CommitsOne :
      Moment
      → ℕ
      → (Ticket → Bool)
      → (Ticket → Ticket)
      → AuditEvent
      → (Ticket → A)
      → World Store
      → Result A × World Store
      → Type 0
  CommitsOne m id where_ set_ entry read w (ok a, w') =
      OnRow (λ t. (where_ t ≡ true) × (satisfies_checks (set_ t) ≡ true) × (a ≡ read (set_ t)))
        (find_ticket id (m.others w.committed).tickets)
      × (w'.committed ≡ written id set_ entry (m.others w.committed))
  CommitsOne m id where_ set_ entry read w (err e, w') =
      (w'.committed ≡ w.committed) ⊎ (w'.committed ≡ m.others w.committed)

-- A read that changes nothing, and returns the ticket of that id.
abbrev Loads : {Store : Type 0} → ℕ → World Store → Result Ticket × World Store → Type 0
Loads id w (ok t, w') = (w' ≡ w) × (find_ticket id w.db.tickets ≡ some t)
Loads id w (err e, w') = w' ≡ w

load_assignable-Loads :
    {Store : Type 0} (c : Collaborators) (id : ℕ) (scopes : List Scope) (assignee : ℕ)
    (w : World Store)
    → Loads id w (load_assignable c id scopes assignee w)
unfolding load_assignable assignment_gate get_by_id ◌>>=◌
load_assignable-Loads c id scopes assignee w = ground arith

module _ {Store : Type 0} (c : Collaborators) (m : Moment) (id actor : ℕ) (w : World Store) where
  -- Resolving ends either with an answer, and then it has committed, on top of what other sessions
  -- committed since the read, exactly the UPDATE of `transition_status` to a row in an eligible status,
  -- with one "ticket_resolved" audit entry, and answers the new row's state; or with an error, and then
  -- this session has committed nothing.
  resolve_ticket-CommitsOne :
      (kind : ActorKind) (note : String)
      → CommitsOne m id
          (transition_where m.db_now (resolving m.utc_now note))
          (transition_set m.db_now (resolving m.utc_now note))
          (event_entry c "ticket_resolved" actor id)
          state_read
          w
          (resolve_ticket c m id actor kind note w)
  unfolding resolve_ticket load_visible get_by_id transition_status update_ticket notify_resolved
      ◌>>=◌
  resolve_ticket-CommitsOne kind note = ground arith

  -- Closing commits either one UPDATE of a row that is not closed, with one "ticket_closed" audit
  -- entry, on top of what other sessions committed, and answers the new row's state; or it raises, and
  -- this session has committed nothing.
  close_ticket-CommitsOne :
      (kind : ActorKind)
      → CommitsOne m id
          (transition_where m.db_now (closing m.utc_now actor))
          (transition_set m.db_now (closing m.utc_now actor))
          (event_entry c "ticket_closed" actor id)
          state_read
          w
          (close_ticket c m id actor kind w)
  unfolding close_ticket load_visible get_by_id transition_status update_ticket notify_resolved
      ◌>>=◌
  close_ticket-CommitsOne kind = ground arith

  -- Reopening commits either one UPDATE of a row that was resolved at most seven days ago, with one
  -- "ticket_reopened" audit entry, on top of what other sessions committed, and answers the new row's
  -- state; or it raises, and this session has committed nothing.
  reopen_ticket-CommitsOne :
      (kind : ActorKind)
      → CommitsOne m id
          (transition_where m.db_now reopening)
          (transition_set m.db_now reopening)
          (event_entry c "ticket_reopened" actor id)
          state_read
          w
          (reopen_ticket c m id actor kind w)
  unfolding reopen_ticket load_visible get_by_id transition_status update_ticket notify_resolved
      ◌>>=◌
  reopen_ticket-CommitsOne kind = ground arith

  -- Assigning commits either one UPDATE of a row that is not closed and whose assignee is still the one
  -- that was read, with one "ticket_assigned" audit entry, on top of what other sessions committed, and
  -- answers the new row's state; or it raises, and this session has committed nothing.
  assign_ticket-CommitsOne :
      (scopes : List Scope) (assignee : ℕ)
      → CommitsOne m id
          (assign_where (assignee_in w.committed id))
          (assign_set assignee)
          (event_entry c "ticket_assigned" actor id)
          agent_state_read
          w
          (assign_ticket c m id actor scopes assignee w)
  unfolding assign_ticket assign ◌>>=◌
  assign_ticket-CommitsOne scopes assignee =
      ground (arith, load_assignable-Loads c id scopes assignee (record w { db = w.committed }))

  -- Unassigning commits either one UPDATE of a row that is not closed, with one "ticket_unassigned"
  -- audit entry, on top of what other sessions committed, and answers the new row's state; or it
  -- raises, and this session has committed nothing.
  unassign_ticket-CommitsOne :
      (scopes : List Scope)
      → CommitsOne m id unassign_where unassign_set
          (event_entry c "ticket_unassigned" actor id)
          agent_state_read
          w
          (unassign_ticket c m id actor scopes w)
  unfolding unassign_ticket assignment_gate get_by_id unassign ◌>>=◌
  unassign_ticket-CommitsOne scopes = ground arith
