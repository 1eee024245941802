-- ===== src/Support/Creation.antt =====
-- `TicketService.create_ticket` of app/modules/support/service.py, with the idempotency gate.
pub mod Binding
pub mod Atomic
pub mod Replay
pub mod Twice
use customer_portal.Prelude.{
  ℕ, zero, suc, String, not, Option, none, some, List, [], ◌∷◌, ◌++◌, ltb, leb, if◌then◌else◌,
}
use text.Mathlib.Text.{◌==◌ as str_eq}
use customer_portal.Valkey.{Valkey}
use customer_portal.Support.Models.{
  Ticket, open_, account_deactivated, idempotency_key_reuse, server_error,
  ticket_creation_rate_limit, ok,
}
use customer_portal.Support.World.{
  Action, Collaborators, Moment, ticket_created, ◌>>=◌, ◌>>◌, pure, raise, or_raise, raise_if,
  send_to, interleave, commit, in_session, send, record_event, on_error,
}
use customer_portal.Support.Repository.{get_by_id}
use customer_portal.Support.Attachments.{validate_for_ticket, bind_all_to_ticket}
use customer_portal.Support.Lifecycle.{is_deactivated}
use customer_portal.Support.Cache.{
  IdempotencyEnvelope, claim, get_envelope, resolve, release, record_creation, creation_retry_after,
}

-- The arguments of a create request.
pub record CreateTicket : Type 0 where
  pub requester_id : ℕ
  pub key : String
  pub subject : String
  pub body : String
  pub category : String
  pub attachment_ids : List ℕ

-- What `_hash_request` serialises; the identifiers are sorted.
pub record Canonical : Type 0 where
  pub subject : String
  pub body : String
  pub category : String
  pub attachment_ids : List ℕ

unfoldable pub insert_sorted : ℕ → List ℕ → List ℕ
insert_sorted a [] = a ∷ []
insert_sorted a (b ∷ bs) = if leb a b then a ∷ b ∷ bs else b ∷ insert_sorted a bs

unfoldable pub sorted : List ℕ → List ℕ
unfolding insert_sorted
sorted [] = []
sorted (a ∷ as_) = insert_sorted a (sorted as_)

-- What the server computes for the new row: its random id and its `ticket_number`.
pub record Fresh : Type 0 where
  pub id : ℕ
  pub number : String

abbrev pub rate_limit_max_creates : ℕ
rate_limit_max_creates = 5

abbrev pub rate_limit_window_seconds : ℕ
rate_limit_window_seconds = 3600

abbrev pub idempotency_ttl_seconds : ℕ
idempotency_ttl_seconds = 86400

abbrev pub poll_max_attempts : ℕ
poll_max_attempts = 5

-- `TicketRepository.create`, with the column defaults.
abbrev pub new_ticket : ℕ → Fresh → CreateTicket → Ticket
new_ticket now f r = record {
  id = f.id;
  ticket_number = f.number;
  requester_id = r.requester_id;
  subject = r.subject;
  body = r.body;
  category = r.category;
  status = open_;
  created_at = now;
  updated_at = now;
  first_response_at = none;
  resolved_at = none;
  resolution_note = none;
  closed_at = none;
  closed_by = none;
  assignee_id = none;
}

-- `hash` is SHA-256 of the JSON text, in hexadecimal. `elapse n` is what other requests do to the
-- cache during the sleep that leaves `n` attempts.
module _ (vk : Valkey) (hash : Canonical → String) (elapse : ℕ → vk.Store → vk.Store) where
  -- `_hash_request`
  unfoldable pub hash_request : CreateTicket → String
  unfolding sorted
  hash_request r = hash (record {
    subject = r.subject;
    body = r.body;
    category = r.category;
    attachment_ids = sorted r.attachment_ids;
  })

  unfoldable pub sleep : ℕ → Action vk.Store (Unit {0})
  sleep n w = (ok tt, record w { store = elapse n w.store })

  -- `if envelope.ticket_id is not None: return …`
  unfoldable pub resolved_or : Option ℕ → Action vk.Store ℕ → Action vk.Store ℕ
  resolved_or none rest = rest
  resolved_or (some id) rest = pure id

  -- The loop of `_resolve_idempotency_replay`.
  unfoldable pub poll : ℕ → CreateTicket → String → Option IdempotencyEnvelope → Action vk.Store ℕ
  poll zero r h envelope = raise server_error
  poll (suc n) r h none = raise server_error
  poll (suc n) r h (some e) =
      let rest = (do sleep n; next ← get_envelope vk r.requester_id r.key; poll n r h next) in
      if not (str_eq e.request_hash h)
      then raise idempotency_key_reuse
      else resolved_or e.ticket_id rest

  unfoldable pub resolve_idempotency_replay : CreateTicket → String → Action vk.Store ℕ
  resolve_idempotency_replay r h = do
    envelope ← get_envelope vk r.requester_id r.key
    poll poll_max_attempts r h envelope

  -- The branch of a key that exists already.
  unfoldable pub replay : Moment → CreateTicket → String → Action vk.Store Ticket
  replay m r h = do
    id ← resolve_idempotency_replay r h
    interleave m.others
    found ← get_by_id id
    or_raise found server_error

  -- `TicketRepository.create`
  unfoldable pub insert_ticket : Ticket → Action vk.Store Ticket
  insert_ticket t w = (ok t, record w { db = record w.db { tickets = w.db.tickets ++ t ∷ [] } })

  unfoldable pub limit_creation : ℕ → Action vk.Store (Unit {0})
  limit_creation requester = do
    count ← record_creation vk requester rate_limit_window_seconds
    if ltb rate_limit_max_creates count
        then (do
          retry_after ← creation_retry_after vk requester
          raise (ticket_creation_rate_limit retry_after))
        else pure tt

  -- The body of the `try`.
  unfoldable pub insert_claimed :
      Collaborators → Moment → Fresh → CreateTicket → Action vk.Store Ticket
  insert_claimed c m f r = do
    limit_creation r.requester_id
    validated ← validate_for_ticket r.requester_id r.attachment_ids
    interleave m.others
    t ← insert_ticket (new_ticket m.db_now f r)
    bind_all_to_ticket t.id validated
    record_event c "ticket_created" r.requester_id t.id (some (t.ticket_number, r.category))
    commit
    pure t

  -- Best effort, after the commit.
  unfoldable pub notify_created : Collaborators → Ticket → Action vk.Store (Unit {0})
  notify_created c t =
      send_to (c.email_of t.requester_id) λ to. send c (ticket_created to t.ticket_number)

  -- The branch of a key that this request has claimed.
  unfoldable pub create_claimed :
      Collaborators → Moment → Fresh → CreateTicket → String → Action vk.Store Ticket
  create_claimed c m f r h = do
    t ← on_error (insert_claimed c m f r) (release vk r.requester_id r.key)
    resolve vk r.requester_id r.key h t.id idempotency_ttl_seconds
    notify_created c t
    pure t

  unfoldable pub create_ticket :
      Collaborators → Moment → Fresh → CreateTicket → Action vk.Store Ticket
  create_ticket c m f r = in_session do
    raise_if (is_deactivated (c.account_status r.requester_id)) account_deactivated
    claimed ← claim vk r.requester_id r.key (hash_request r) idempotency_ttl_seconds
    if claimed then create_claimed c m f r (hash_request r) else replay m r (hash_request r)
