-- ===== src/Support/Replies/Touching.antt =====
-- What a reply does to its ticket.
use customer_portal.Prelude.{
  [], inl, inr, ℕ, ◌≡◌, ◌⊎◌, ◌++◌, ◌∷◌, List, true, false, arith, Option, Bool, Bool-cases, some,
  none, ◌&&◌, leb, ◌≢◌, ◌-◌, is_some,
}
use customer_portal.Valkey.{Valkey}
use customer_portal.Support.Models.{
  customer, agent, public, internal, waiting_on_customer, waiting_on_support, resolved, Ticket,
  Result, ok, err, find_ticket, modify_ticket, Visibility, TicketStatus, is_customer,
  waiting_on_support, ActorKind, waiting_on_customer, is_resolved, resolved,
}
use customer_portal.Support.World.{Db, World, Moment, Collaborators, ◌>>=◌, AuditEvent}
use customer_portal.Support.Repository.{
  get_by_id, update, update_ticket, update_set, transition_status, resolution_window,
}
use customer_portal.Support.Lifecycle.Effects.{event_entry}
use customer_portal.Support.Replies.{
  CreateReply, effective_visibility, status_update, first_response_update, reopens, touch_ticket,
  reopen_by_reply, write_updates,
}

-- What an update sets, given the ticket as it was read: a customer's reply answers a waiting for the
-- customer, an agent's public reply waits for the customer, unless the ticket is resolved, and is the
-- first response if there was none; an internal reply sets nothing.
abbrev pub Chooses : ℕ → ActorKind → Visibility → Ticket → Option TicketStatus → Option ℕ → Type 0
Chooses now customer v t s f =
    (((t.status ≡ waiting_on_customer) × (s ≡ some waiting_on_support))
      ⊎ ((t.status ≢ waiting_on_customer) × (s ≡ none)))
    × (f ≡ none)
Chooses now agent public t s f =
    (((t.status ≡ resolved) × (s ≡ none))
      ⊎ ((t.status ≢ resolved) × (s ≡ some waiting_on_customer)))
    × (((t.first_response_at ≡ none) × (f ≡ some now))
        ⊎ ((is_some t.first_response_at ≡ true) × (f ≡ none)))
Chooses now agent internal t s f = (s ≡ none) × (f ≡ none)

-- With nothing to set there is no UPDATE.
abbrev pub updated : ℕ → ℕ → Option TicketStatus → Option ℕ → List Ticket → List Ticket
updated now id none none rows = rows
updated now id s f rows = modify_ticket id (update_set now s f) rows

-- Resolved at most seven days ago.
abbrev pub is_reopenable : ℕ → Ticket → Bool
is_reopenable now row =
    is_resolved row.status
    && elim row.resolved_at [ none ↦ false | some at_ ↦ leb (now - 604800000000) at_ ]

abbrev pub reopened : ℕ → Ticket → Ticket
reopened now row = record row { status = waiting_on_support; resolved_at = none; updated_at = now }

module _ (vk : Valkey) (c : Collaborators) (m : Moment) (id : ℕ) (r : CreateReply) where
  abbrev pub shown : Visibility
  shown = effective_visibility r.visibility

  -- What a reply does to its ticket, which was read as `t` and is `row` when it is written: if a
  -- customer replies to a resolved ticket, a reopening with its audit entry where the row is within the
  -- window, and nothing where it is not; otherwise the update that follows from the ticket as it was read.
  abbrev pub Touched : Ticket → Option Ticket → List Ticket → List AuditEvent → Db → Type 0
  Touched t none rows events d' = (d'.tickets ≡ rows) × (d'.audit ≡ events)
  Touched t (some row) rows events d' =
      ((is_customer r.kind && is_resolved t.status ≡ true)
        × (is_reopenable m.db_now row ≡ true)
        × (d'.tickets ≡ modify_ticket r.ticket_id (reopened m.db_now) rows)
        × (d'.audit ≡ events ++ event_entry c "ticket_reopened" r.actor_id r.ticket_id ∷ []))
      ⊎ ((is_customer r.kind && is_resolved t.status ≡ true)
          × (is_reopenable m.db_now row ≡ false)
          × (d'.tickets ≡ rows)
          × (d'.audit ≡ events))
      ⊎ ((is_customer r.kind && is_resolved t.status ≡ false)
          × Chooses m.utc_now r.kind shown t (status_update r.kind shown t)
              (first_response_update m.utc_now r.kind shown t)
          × (d'.tickets
              ≡ updated m.db_now r.ticket_id (status_update r.kind shown t)
                  (first_response_update m.utc_now r.kind shown t) rows)
          × (d'.audit ≡ events))

  choice :
      (t : Ticket)
      → is_customer r.kind && is_resolved t.status ≡ false
      → Chooses m.utc_now r.kind shown t
          (status_update r.kind shown t)
          (first_response_update m.utc_now r.kind shown t)
  unfolding status_update first_response_update
  choice t h = ground arith

  abbrev pub SameReplies : World vk.Store → World vk.Store → Type 0
  SameReplies w w' =
      (w'.committed ≡ w.committed)
      × (w'.db.replies ≡ w.db.replies)
      × (w'.db.attachments ≡ w.db.attachments)

  abbrev pub Touches : Ticket → Db → World vk.Store → Result (Unit {0}) × World vk.Store → Type 0
  Touches t d w (ok _, w') =
      Touched t (find_ticket r.ticket_id d.tickets) d.tickets d.audit w'.db × SameReplies w w'
  Touches t d w (err e, w') = w'.committed ≡ w.committed

  reopen_by_reply-Touches :
      (t : Ticket) (w : World vk.Store)
      → is_customer r.kind && is_resolved t.status ≡ true
      → Touches t w.db w (reopen_by_reply vk c m r w)
  unfolding reopen_by_reply transition_status update_ticket resolution_window ◌>>=◌
  reopen_by_reply-Touches t w h = ground (arith, h)

  write_updates-Touches :
      (t : Ticket) (w : World vk.Store)
      → is_customer r.kind && is_resolved t.status ≡ false
      → Touches t w.db w (write_updates vk m r t w)
  unfolding write_updates update update_ticket get_by_id ◌>>=◌
  write_updates-Touches t w h = ground (arith, h, choice t h)

  -- From any database with the tickets and the audit log of the one that the session sees.
  pub touch_ticket-Touches :
      (t : Ticket) (d : Db) (w : World vk.Store)
      → w.db.tickets ≡ d.tickets
      → w.db.audit ≡ d.audit
      → Touches t d w (touch_ticket vk c m r t w)
  unfolding touch_ticket
  touch_ticket-Touches t d w e e' =
      moved (touch_ticket vk c m r t w) (elim (Bool-cases (reopens r.kind t)) [
        | inl h ↦ rw h (reopen_by_reply-Touches t w h)
        | inr h ↦ rw h (write_updates-Touches t w h)
      ])
    where
      moved : (q : Result (Unit {0}) × World vk.Store) → Touches t w.db w q → Touches t d w q
      moved (ok u, w') h = rw (e, e') at h
      moved (err x, w') h = h
