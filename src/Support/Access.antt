-- ===== src/Support/Access.antt =====
-- Who may do what to a ticket.
use customer_portal.Support.Repository.{get_by_id}
use customer_portal.Support.Replies.{create_reply}
use customer_portal.Support.World.{Collaborators, Moment, World, ◌>>=◌}
use customer_portal.Valkey.{Valkey}
use customer_portal.Prelude.{ℕ, List, ◌≡◌, false, if◌then◌else◌, String, Option, arith}
use customer_portal.Support.Models.{
  err, Result, ticket_not_found, ActorKind, find_ticket, Scope, can_write, can_read, Visibility,
  insufficient_permission,
}
use customer_portal.Support.Lifecycle.{
  resolve_ticket, close_ticket, reopen_ticket, assign_ticket, unassign_ticket, load_visible,
  load_assignable, assignment_gate,
}
use customer_portal.Support.Lifecycle.Outcomes.{can_see, row_is}

module _ (vk : Valkey) (c : Collaborators) (m : Moment) (w : World vk.Store) where
  -- The answer to a ticket that is not there: nothing is written.
  abbrev pub not_found : {A : Type 0} → Result A × World vk.Store
  not_found = (err ticket_not_found, record w { db = w.committed })

  -- To a caller who may not see the ticket, one that is not there and one of somebody else's give the
  -- same answer on every endpoint that checks ownership: 404, with nothing written, counted or sent.
  pub not_found_if_hidden :
      (id actor : ℕ) (kind : ActorKind)
      → row_is (can_see kind actor) (find_ticket id w.committed.tickets) ≡ false
      → ((note : String) → resolve_ticket c m id actor kind note w ≡ not_found)
        × (close_ticket c m id actor kind w ≡ not_found)
        × (reopen_ticket c m id actor kind w ≡ not_found)
        × ((users : Option (ℕ → Option String)) (uuid_text : ℕ → String) (reply_id : ℕ)
              (body : String) (visibility : Option Visibility) (attachment_ids : List ℕ)
            → create_reply vk c users uuid_text m reply_id
                (record {
                  ticket_id = id;
                  actor_id = actor;
                  kind = kind;
                  body = body;
                  visibility = visibility;
                  attachment_ids = attachment_ids;
                })
                w
              ≡ not_found)
  unfolding resolve_ticket close_ticket reopen_ticket create_reply load_visible get_by_id ◌>>=◌
  not_found_if_hidden id actor kind h = (
    λ note. ground arith,
    ground arith,
    ground arith,
    λ users uuid_text reply_id body visibility attachment_ids. ground arith,
  )

  -- Without "tickets:write" the assignment endpoints answer before any lookup, and alike for every
  -- ticket: 403 to a caller with "tickets:read", 404 to any other, with nothing written.
  assignment_refused :
      (id actor assignee : ℕ) (scopes : List Scope)
      → can_write scopes ≡ false
      → let refusal = if can_read scopes then insufficient_permission else ticket_not_found in
        (assign_ticket c m id actor scopes assignee w
          ≡ (err refusal, record w { db = w.committed }))
        × (unassign_ticket c m id actor scopes w ≡ (err refusal, record w { db = w.committed }))
  unfolding assign_ticket unassign_ticket load_assignable assignment_gate ◌>>=◌
  assignment_refused id actor assignee scopes h = ground arith
