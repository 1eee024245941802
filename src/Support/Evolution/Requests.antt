-- ===== src/Support/Evolution/Requests.antt =====
-- Every request, failing or not, lets the database only evolve, if what the other sessions commit
-- meanwhile does.
use customer_portal.Support.Cache.{IdempotencyEnvelope}
use customer_portal.Support.Creation.{
  Canonical, poll, resolved_or, CreateTicket, sleep, create_ticket, create_claimed, replay,
  insert_claimed, Fresh, resolve_idempotency_replay, limit_creation, notify_created, new_ticket,
}
use customer_portal.Support.Evolution.CacheSteps.{
  Keeps-record_reply, Keeps-reply_retry_after, Keeps-validate_for_reply, Keeps-bind_all_to_reply,
  Keeps-get_envelope, Keeps-claim, Keeps-record_creation, Keeps-creation_retry_after,
  Keeps-validate_for_ticket, Keeps-bind_all_to_ticket, Keeps-release, Keeps-resolve,
}
use customer_portal.Valkey.{Valkey}
use customer_portal.Support.Replies.{
  status_update, create_reply, touch_ticket, limit_reply, reopen_by_reply, write_updates,
  notify_reply, CreateReply, effective_visibility, first_response_update, finish_reply,
}
use customer_portal.Support.Evolution.Statements.{
  Keeps-insert_ticket, Keeps-transition_status, Keeps-get_by_id, Keeps-unassign, Keeps-assign,
  Keeps-update, Keeps-insert_reply,
}
use customer_portal.Support.Lifecycle.{
  load_visible, load_assignable, assignment_gate, resolve_ticket, notify_resolved, resolving,
  unassign_ticket, reopen_ticket, close_ticket, assign_ticket, closing, reopening,
}
use customer_portal.Support.World.{Db, Collaborators, Moment, Action}
use customer_portal.Support.Evolution.Keeps.{
  Keeps-pure, Keeps-raise, Keeps-or_raise, Rely, Keeps-raise_if, Keeps-bind, Keeps, Keeps-if,
  Keeps-on_error, Keeps-in_session, Keeps-interleave, Keeps-commit, Keeps-send, Keeps-send_to,
  Keeps-record_event,
}
use customer_portal.Prelude.{zero, suc, none, some, ℕ, List, String, refl, ◌≢◌, arith, Option, suc}
use customer_portal.Support.Models.{closed, ActorKind, Scope, Visibility, Ticket, server_error}

ruleset keeps_rules = (
  Keeps-pure, Keeps-raise, Keeps-or_raise, Keeps-raise_if, Keeps-bind, Keeps-if, Keeps-on_error,
  Keeps-in_session, Keeps-commit, Keeps-send, Keeps-send_to, Keeps-record_event, Keeps-get_by_id,
)

module _ {start : Db} {Store : Type 0} where
  Keeps-load_visible :
      (id actor : ℕ) (kind : ActorKind) → Keeps start (load_visible {Store = Store} id actor kind)
  unfolding load_visible
  Keeps-load_visible id actor kind = search keeps_rules depth 9

  Keeps-load_assignable :
      (c : Collaborators) (id : ℕ) (scopes : List Scope) (assignee : ℕ)
      → Keeps start (load_assignable {Store = Store} c id scopes assignee)
  unfolding load_assignable assignment_gate
  Keeps-load_assignable c id scopes assignee = search keeps_rules depth 12

module _ {start : Db} {Store : Type 0} (c : Collaborators) (m : Moment) (rely : Rely m)
    (id actor : ℕ) where
  pub Keeps-resolve_ticket :
      (kind : ActorKind) (note : String)
      → Keeps start (resolve_ticket {Store = Store} c m id actor kind note)
  unfolding resolve_ticket notify_resolved
  Keeps-resolve_ticket kind note =
      search
        (
          keeps_rules,
          Keeps-load_visible,
          Keeps-interleave m rely,
          Keeps-transition_status m.db_now id (resolving m.utc_now note) refl,
        )
        depth 20

  pub Keeps-close_ticket :
      (kind : ActorKind) → Keeps start (close_ticket {Store = Store} c m id actor kind)
  unfolding close_ticket
  Keeps-close_ticket kind =
      search
        (
          keeps_rules,
          Keeps-load_visible,
          Keeps-interleave m rely,
          Keeps-transition_status m.db_now id (closing m.utc_now actor) refl,
        )
        depth 20

  pub Keeps-reopen_ticket :
      (kind : ActorKind) → Keeps start (reopen_ticket {Store = Store} c m id actor kind)
  unfolding reopen_ticket
  Keeps-reopen_ticket kind =
      search
        (
          keeps_rules,
          Keeps-load_visible,
          Keeps-interleave m rely,
          Keeps-transition_status m.db_now id reopening refl,
        )
        depth 20

  pub Keeps-assign_ticket :
      (scopes : List Scope) (assignee : ℕ)
      → Keeps start (assign_ticket {Store = Store} c m id actor scopes assignee)
  unfolding assign_ticket
  Keeps-assign_ticket scopes assignee =
      search (keeps_rules, Keeps-load_assignable, Keeps-interleave m rely, Keeps-assign) depth 20

  pub Keeps-unassign_ticket :
      (scopes : List Scope) → Keeps start (unassign_ticket {Store = Store} c m id actor scopes)
  unfolding unassign_ticket assignment_gate
  Keeps-unassign_ticket scopes =
      search (keeps_rules, Keeps-interleave m rely, Keeps-unassign) depth 20

-- The statuses that a reply writes.
status_update-ne :
    (kind : ActorKind) (v : Visibility) (t : Ticket) → status_update kind v t ≢ some closed
unfolding status_update
status_update-ne kind v t e = ground arith

module _ {start : Db} (vk : Valkey) (c : Collaborators) (m : Moment) (rely : Rely m) where
  Keeps-touch_ticket : (r : CreateReply) (t : Ticket) → Keeps start (touch_ticket vk c m r t)
  unfolding touch_ticket reopen_by_reply write_updates
  Keeps-touch_ticket r t =
      let v = effective_visibility r.visibility in
      search
        (
          keeps_rules,
          Keeps-transition_status m.db_now r.ticket_id reopening refl,
          Keeps-update m.db_now r.ticket_id (status_update r.kind v t)
              (first_response_update m.utc_now r.kind v t) (status_update-ne r.kind v t),
        )
        depth 12

  pub Keeps-create_reply :
      (users : Option (ℕ → Option String)) (uuid_text : ℕ → String) (id : ℕ) (r : CreateReply)
      → Keeps start (create_reply vk c users uuid_text m id r)
  unfolding create_reply finish_reply limit_reply notify_reply
  Keeps-create_reply users uuid_text id r =
      search
        (
          keeps_rules,
          Keeps-load_visible,
          Keeps-interleave m rely,
          Keeps-record_reply,
          Keeps-reply_retry_after,
          Keeps-validate_for_reply,
          Keeps-insert_reply,
          Keeps-bind_all_to_reply,
          Keeps-touch_ticket,
        )
        depth 30

module _ {start : Db} (vk : Valkey) (hash : Canonical → String)
    (elapse : ℕ → vk.Store → vk.Store) where
  Keeps-sleep : (n : ℕ) → Keeps start (sleep vk hash elapse n)
  unfolding sleep
  Keeps-sleep n = record { at = λ w h. record { seen = h.seen; kept = h.kept } }

  Keeps-resolved_or :
      (o : Option ℕ) (rest : Action vk.Store ℕ)
      → Keeps start rest
      → Keeps start (resolved_or vk hash elapse o rest)
  unfolding resolved_or
  Keeps-resolved_or none rest h = h
  Keeps-resolved_or (some id) rest h = Keeps-pure id

  Keeps-poll :
      (n : ℕ) (r : CreateTicket) (h : String) (e : Option IdempotencyEnvelope)
      → Keeps start (poll vk hash elapse n r h e)
  unfolding poll
  Keeps-poll zero r h e = Keeps-raise server_error
  Keeps-poll (suc n) r h none = Keeps-raise server_error
  Keeps-poll (suc n) r h (some e) =
      search (keeps_rules, Keeps-sleep, Keeps-get_envelope, Keeps-resolved_or, Keeps-poll n r h)
        depth 12

  module _ (c : Collaborators) (m : Moment) (rely : Rely m) (r : CreateTicket) where
    Keeps-replay : (h : String) → Keeps start (replay vk hash elapse m r h)
    unfolding replay resolve_idempotency_replay
    Keeps-replay h =
        search (keeps_rules, Keeps-get_envelope, Keeps-poll, Keeps-interleave m rely) depth 12

    Keeps-create_claimed :
        (f : Fresh) (h : String) → Keeps start (create_claimed vk hash elapse c m f r h)
    unfolding create_claimed insert_claimed limit_creation notify_created
    Keeps-create_claimed f h =
        search
          (
            keeps_rules,
            Keeps-interleave m rely,
            Keeps-record_creation,
            Keeps-creation_retry_after,
            Keeps-validate_for_ticket,
            Keeps-bind_all_to_ticket,
            Keeps-release,
            Keeps-resolve,
            Keeps-insert_ticket vk hash elapse (new_ticket m.db_now f r) refl,
          )
          depth 30

    pub Keeps-create_ticket : (f : Fresh) → Keeps start (create_ticket vk hash elapse c m f r)
    unfolding create_ticket
    Keeps-create_ticket f =
        search (keeps_rules, Keeps-claim, Keeps-create_claimed, Keeps-replay) depth 12
