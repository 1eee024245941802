-- ===== src/Support/Replies.antt =====
-- `TicketReplyService.create_reply` of app/modules/support/service.py.
pub mod Attaching
pub mod Touching
pub mod Writing
pub mod Outcomes
use customer_portal.Prelude.{
  ℕ, String, Bool, not, ◌&&◌, Option, none, some, List, [], ◌∷◌, ◌++◌, ltb, is_some, if◌then◌else◌,
}
use customer_portal.Valkey.{Valkey}
use customer_portal.Support.Models.{
  Ticket, TicketStatus, waiting_on_support, waiting_on_customer, is_closed, is_resolved, status_in,
  TicketReply, ActorKind, customer, agent, is_agent, is_customer, Visibility, public, internal,
  is_internal, reply_check, ticket_closed, insufficient_permission, ticket_reply_rate_limit,
  server_error, ok, err,
}
use customer_portal.Support.World.{
  Action, Collaborators, Moment, ticket_reply, ticket_reply_queue, ◌>>=◌, ◌>>◌, pure, raise,
  raise_if, interleave, commit, in_session, send, record_event,
}
use customer_portal.Support.Repository.{update, transition_status}
use customer_portal.Support.Attachments.{validate_for_reply, bind_all_to_reply}
use customer_portal.Support.Lifecycle.{load_visible, reopening}
use customer_portal.Support.Cache.{record_reply, reply_retry_after}

-- The arguments of a reply request.
pub record CreateReply : Type 0 where
  pub ticket_id : ℕ
  pub actor_id : ℕ
  pub kind : ActorKind
  pub body : String
  pub visibility : Option Visibility
  pub attachment_ids : List ℕ

abbrev pub reply_rate_limit_max : ℕ
reply_rate_limit_max = 30

abbrev pub reply_rate_limit_window_seconds : ℕ
reply_rate_limit_window_seconds = 3600

-- "public" if none is given
abbrev pub effective_visibility : Option Visibility → Visibility
effective_visibility none = public
effective_visibility (some v) = v

-- `TicketReplyRepository.create`
abbrev pub new_reply : ℕ → ℕ → CreateReply → TicketReply
new_reply now id r = record {
  id = id;
  ticket_id = r.ticket_id;
  author_id = r.actor_id;
  author_kind = r.kind;
  body = r.body;
  visibility = effective_visibility r.visibility;
  created_at = now;
}

-- `status_update`, from the ticket as it was read.
unfoldable pub status_update : ActorKind → Visibility → Ticket → Option TicketStatus
status_update agent public t = if is_resolved t.status then none else some waiting_on_customer
status_update agent internal t = none
status_update customer v t =
    if status_in t.status (waiting_on_customer ∷ []) then some waiting_on_support else none

-- `first_response_at_update`
unfoldable pub first_response_update : ℕ → ActorKind → Visibility → Ticket → Option ℕ
first_response_update now agent public t = if is_some t.first_response_at then none else some now
first_response_update now _ _ t = none

-- A customer's reply to a resolved ticket asks for a reopening.
abbrev pub reopens : ActorKind → Ticket → Bool
reopens kind t = is_customer kind && is_resolved t.status

module _ (vk : Valkey) where
  unfoldable pub limit_reply : ℕ → Action vk.Store (Unit {0})
  limit_reply actor = do
    count ← record_reply vk actor reply_rate_limit_window_seconds
    if ltb reply_rate_limit_max count
        then (do
          retry_after ← reply_retry_after vk actor
          raise (ticket_reply_rate_limit retry_after))
        else pure tt

  -- The INSERT of `TicketReplyRepository.create`, with the table's CHECK constraint.
  unfoldable pub insert_reply : TicketReply → Action vk.Store (Unit {0})
  insert_reply r w =
      if reply_check r
      then (ok tt, record w { db = record w.db { replies = w.db.replies ++ r ∷ [] } })
      else (err server_error, w)

  -- The window-guarded reopening: its audit entry is written only if a row was changed.
  unfoldable pub reopen_by_reply : Collaborators → Moment → CreateReply → Action vk.Store (Unit {0})
  reopen_by_reply c m r = do
    moved ← transition_status m.db_now r.ticket_id reopening
    if is_some moved then record_event c "ticket_reopened" r.actor_id r.ticket_id none else pure tt

  unfoldable pub write_updates : Moment → CreateReply → Ticket → Action vk.Store (Unit {0})
  write_updates m r t = do
    let s = status_update r.kind (effective_visibility r.visibility) t
    let f = first_response_update m.utc_now r.kind (effective_visibility r.visibility) t
    update m.db_now r.ticket_id s f
    pure tt

  -- What a reply does to its ticket, given the ticket as it was read.
  unfoldable pub touch_ticket :
      Collaborators → Moment → CreateReply → Ticket → Action vk.Store (Unit {0})
  touch_ticket c m r t = if reopens r.kind t then reopen_by_reply c m r else write_updates m r t

  -- `_resolve_requester_email`: `users` is the optional service, and the fallback is the id's text.
  unfoldable pub resolve_requester_email : Option (ℕ → Option String) → (ℕ → String) → ℕ → String
  resolve_requester_email none uuid_text id = uuid_text id
  resolve_requester_email (some users) uuid_text id = elim (users id) [
    | none ↦ uuid_text id
    | some email ↦ email
  ]

  -- Best effort, after the commit.
  unfoldable pub notify_reply :
      Collaborators
      → Option (ℕ → Option String)
      → (ℕ → String)
      → CreateReply
      → Ticket
      → Action vk.Store (Unit {0})
  notify_reply c users uuid_text r t =
      if is_agent r.kind
      then send c
          (ticket_reply (resolve_requester_email users uuid_text t.requester_id) t.ticket_number)
      else send c (ticket_reply_queue t.ticket_number)

  -- The end of `create_reply`, given the ticket as it was read.
  unfoldable pub finish_reply :
      Collaborators
      → Option (ℕ → Option String)
      → (ℕ → String)
      → Moment
      → ℕ
      → CreateReply
      → Ticket
      → Action vk.Store TicketReply
  finish_reply c users uuid_text m id r ticket = do
    touch_ticket c m r ticket
    commit
    notify_reply c users uuid_text r ticket
    pure (new_reply m.db_now id r)

  unfoldable pub create_reply :
      Collaborators
      → Option (ℕ → Option String)
      → (ℕ → String)
      → Moment
      → ℕ
      → CreateReply
      → Action vk.Store TicketReply
  create_reply c users uuid_text m id r = in_session do
    ticket ← load_visible r.ticket_id r.actor_id r.kind
    raise_if (is_closed ticket.status) ticket_closed
    raise_if (is_internal (effective_visibility r.visibility) && not (is_agent r.kind))
        insufficient_permission
    limit_reply r.actor_id
    validated ← validate_for_reply r.actor_id r.attachment_ids
    interleave m.others
    insert_reply (new_reply m.db_now id r)
    bind_all_to_reply id validated
    finish_reply c users uuid_text m id r ticket
