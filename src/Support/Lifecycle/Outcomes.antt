-- ===== src/Support/Lifecycle/Outcomes.antt =====
-- When the transition endpoints succeed, and what they answer otherwise.
use customer_portal.Support.Evolution.Rules.{IsChecked-find}
use customer_portal.Prelude.{
  none, some, [], inl, inr, ℕ, Bool, List, Option, true, false, ◌||◌, String, ◌≡◌, ◌==◌, ◌&&◌, refl,
  ◌∷◌, Option-cases, arith,
}
use customer_portal.Support.Models.{
  open_, waiting_on_support, waiting_on_customer, resolved, closed, ok, err, resolve, close, reopen,
  TicketEvent, ActorKind, Result, Ticket, TicketStatus, status_in, is_agent, IsChecked, find_ticket,
  is_resolved,
}
use customer_portal.Support.Lifecycle.{
  resolve_ticket, close_ticket, reopen_ticket, load_visible, notify_resolved, allowed_events,
  resolve_eligible, close_eligible, reopen_eligible,
}
use customer_portal.Support.Repository.{get_by_id, update_ticket, transition_status, within_window}
use customer_portal.Support.World.{World, Collaborators, Moment, ◌>>=◌}

-- `event in events`
abbrev pub offers : TicketEvent → List TicketEvent → Bool
offers e [] = false
offers resolve (resolve ∷ es) = true
offers close (close ∷ es) = true
offers reopen (reopen ∷ es) = true
offers e (_ ∷ es) = offers e es

-- The statuses from which the three endpoints may start are the ones for which the table
-- `_ALLOWED_EVENTS_BY_STATUS` lists their event.
eligible-allowed_events :
    (s : TicketStatus)
    → (status_in s resolve_eligible ≡ offers resolve (allowed_events s))
      × (status_in s close_eligible ≡ offers close (allowed_events s))
      × (status_in s reopen_eligible ≡ offers reopen (allowed_events s))
unfolding allowed_events
eligible-allowed_events open_ = (refl, refl, refl)
eligible-allowed_events waiting_on_support = (refl, refl, refl)
eligible-allowed_events waiting_on_customer = (refl, refl, refl)
eligible-allowed_events resolved = (refl, refl, refl)
eligible-allowed_events closed = (refl, refl, refl)

-- The caller may see the ticket: an agent any, a customer their own.
abbrev pub can_see : ActorKind → ℕ → Ticket → Bool
can_see kind actor t = is_agent kind || t.requester_id == actor

abbrev pub succeeds : {Store A : Type 0} → Result A × World Store → Bool
succeeds (ok a, w) = true
succeeds (err e, w) = false

-- A row that satisfies a test.
abbrev pub row_is : (Ticket → Bool) → Option Ticket → Bool
row_is p none = false
row_is p (some t) = p t

module _ {Store : Type 0} (c : Collaborators) (m : Moment) (id actor : ℕ) (kind : ActorKind)
    (w : World Store) where
  -- Resolving succeeds exactly when the caller is an agent, and the ticket is there in an eligible
  -- status both when it is read and when it is written, after what other sessions committed between.
  -- This is so although a CHECK constraint could refuse the write: if the rows met the constraints
  -- before it, the new row meets them too.
  pub succeeds-resolve_ticket :
      (note : String)
      → IsChecked (m.others w.committed).tickets
      → succeeds (resolve_ticket c m id actor kind note w) ≡ (
          is_agent kind
          && row_is (λ t. status_in t.status resolve_eligible) (find_ticket id w.committed.tickets)
          && row_is
              (λ t. status_in t.status resolve_eligible)
              (find_ticket id (m.others w.committed).tickets))
  unfolding resolve_ticket load_visible get_by_id transition_status update_ticket notify_resolved
      ◌>>=◌
  succeeds-resolve_ticket note h =
      elim (Option-cases (find_ticket id (m.others w.committed).tickets)) [
        | inl e ↦ ground arith
        | inr (t, e) ↦ ground (arith, IsChecked-find id t (m.others w.committed).tickets h e)
      ]

  -- If the tickets meet the CHECK constraints at the write, closing succeeds exactly when the
  -- caller may see the ticket, and it is there and not closed both when it is read and when it is
  -- written.
  succeeds-close_ticket :
      IsChecked (m.others w.committed).tickets
      → succeeds (close_ticket c m id actor kind w) ≡ (
          row_is
            (λ t. can_see kind actor t && status_in t.status close_eligible)
            (find_ticket id w.committed.tickets)
          && row_is
              (λ t. status_in t.status close_eligible)
              (find_ticket id (m.others w.committed).tickets))
  unfolding close_ticket load_visible get_by_id transition_status update_ticket ◌>>=◌
  succeeds-close_ticket h = elim (Option-cases (find_ticket id (m.others w.committed).tickets)) [
    | inl e ↦ ground arith
    | inr (t, e) ↦ ground (arith, IsChecked-find id t (m.others w.committed).tickets h e)
  ]

  -- If the tickets meet the CHECK constraints at the write, reopening succeeds exactly when the
  -- caller may see the ticket, it is there and resolved both when it is read and when it is
  -- written, and was then resolved at most seven days ago.
  succeeds-reopen_ticket :
      IsChecked (m.others w.committed).tickets
      → succeeds (reopen_ticket c m id actor kind w) ≡ (
          row_is
            (λ t. can_see kind actor t && is_resolved t.status)
            (find_ticket id w.committed.tickets)
          && row_is
              (λ t. is_resolved t.status && within_window m.db_now t)
              (find_ticket id (m.others w.committed).tickets))
  unfolding reopen_ticket load_visible get_by_id transition_status update_ticket ◌>>=◌
  succeeds-reopen_ticket h = elim (Option-cases (find_ticket id (m.others w.committed).tickets)) [
    | inl e ↦ ground arith
    | inr (t, e) ↦ ground (arith, IsChecked-find id t (m.others w.committed).tickets h e)
  ]
