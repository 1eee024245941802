-- ===== src/Support/Models.antt =====
-- app/modules/support/models.py, exceptions.py and the response shapes of schemas.py.
-- A UUID is a number, which the code only compares; a timestamp counts microseconds.
use customer_portal.Prelude.{
  ℕ, String, Bool, true, false, not, ◌&&◌, ◌||◌, Option, List, [], ◌∷◌, is_some, ◌==◌, All, find,
  modify, ◌≡◌,
}
use customer_portal.Session
pub use customer_portal.Session.{ok, err, Result-cases}

pub data TicketStatus : Type 0 where
  open_ waiting_on_support waiting_on_customer resolved closed : TicketStatus

-- The endpoint verbs of `_ALLOWED_EVENTS_BY_STATUS`.
pub data TicketEvent : Type 0 where
  resolve close reopen : TicketEvent

-- "customer" or "agent"
pub data ActorKind : Type 0 where
  customer agent : ActorKind

pub data Visibility : Type 0 where
  public internal : Visibility

-- A permission scope of an access token: the two that this module tests, or any other.
pub data Scope : Type 0 where
  tickets_read tickets_write : Scope
  other_scope : String → Scope

pub record Ticket : Type 0 where
  pub id : ℕ
  pub ticket_number : String
  pub requester_id : ℕ
  pub subject : String
  pub body : String
  pub category : String
  pub status : TicketStatus
  pub created_at : ℕ
  pub updated_at : ℕ
  pub first_response_at : Option ℕ
  pub resolved_at : Option ℕ
  pub resolution_note : Option String
  pub closed_at : Option ℕ
  pub closed_by : Option ℕ
  pub assignee_id : Option ℕ

pub record TicketReply : Type 0 where
  pub id : ℕ
  pub ticket_id : ℕ
  pub author_id : ℕ
  pub author_kind : ActorKind
  pub body : String
  pub visibility : Visibility
  pub created_at : ℕ

pub record Attachment : Type 0 where
  pub id : ℕ
  pub uploaded_by : ℕ
  pub ticket_id : Option ℕ
  pub ticket_reply_id : Option ℕ
  pub created_at : ℕ

-- `SYSTEM_ACTOR_ID`
abbrev pub system_actor_id : ℕ
system_actor_id = 0

abbrev pub is_closed : TicketStatus → Bool
is_closed closed = true
is_closed _ = false

abbrev pub is_resolved : TicketStatus → Bool
is_resolved resolved = true
is_resolved _ = false

abbrev pub is_agent : ActorKind → Bool
is_agent agent = true
is_agent customer = false

abbrev pub is_customer : ActorKind → Bool
is_customer customer = true
is_customer agent = false

abbrev pub is_internal : Visibility → Bool
is_internal internal = true
is_internal public = false

abbrev status_index : TicketStatus → ℕ
status_index open_ = 0
status_index waiting_on_support = 1
status_index waiting_on_customer = 2
status_index resolved = 3
status_index closed = 4

-- `status in statuses`
abbrev pub status_in : TicketStatus → List TicketStatus → Bool
status_in s [] = false
status_in s (x ∷ xs) = status_index s == status_index x || status_in s xs

-- "tickets:write" in scopes
abbrev pub can_write : List Scope → Bool
can_write [] = false
can_write (tickets_write ∷ scopes) = true
can_write (_ ∷ scopes) = can_write scopes

-- "tickets:read" in scopes
abbrev pub can_read : List Scope → Bool
can_read [] = false
can_read (tickets_read ∷ scopes) = true
can_read (_ ∷ scopes) = can_read scopes

-- ck_tickets_closed_requires_closed_fields
abbrev pub closed_check : Ticket → Bool
closed_check t = elim (is_closed t.status) [
  | true ↦ is_some t.closed_at && is_some t.closed_by
  | false ↦ not (is_some t.closed_at && is_some t.closed_by)
]

-- ck_tickets_resolved_requires_resolution_fields
abbrev pub resolved_check : Ticket → Bool
resolved_check t =
    not (is_resolved t.status) || (is_some t.resolved_at && is_some t.resolution_note)

-- The CHECK constraints of `tickets`, which the database tests on every write.
abbrev pub satisfies_checks : Ticket → Bool
satisfies_checks t = closed_check t && resolved_check t

-- ck_ticket_replies_visibility_agent_only
abbrev pub reply_check : TicketReply → Bool
reply_check r = not (is_internal r.visibility) || is_agent r.author_kind

-- The errors of exceptions.py, with `server_error` for what no handler maps (RuntimeError,
-- IntegrityError).
pub data SupportError : Type 0 where
  validation_failed : String → SupportError
  idempotency_key_reuse attachment_not_owned account_deactivated ticket_not_found : SupportError
  insufficient_permission ticket_closed assignment_conflict server_error : SupportError
  ticket_creation_rate_limit ticket_reply_rate_limit : ℕ → SupportError
  invalid_state_transition : List TicketEvent → SupportError

abbrev pub Result : Type 0 → Type 0
Result A = Session.Result SupportError A

-- `status` of each exception class; an unhandled error is 500.
unfoldable pub http_status : SupportError → ℕ
http_status (validation_failed _) = 422
http_status idempotency_key_reuse = 422
http_status attachment_not_owned = 422
http_status (ticket_creation_rate_limit _) = 429
http_status account_deactivated = 403
http_status ticket_not_found = 404
http_status insufficient_permission = 403
http_status ticket_closed = 409
http_status (invalid_state_transition _) = 409
http_status (ticket_reply_rate_limit _) = 429
http_status assignment_conflict = 409
http_status server_error = 500

-- `TicketStateRead`
pub record TicketStateRead : Type 0 where
  pub id : ℕ
  pub ticket_number : String
  pub status : TicketStatus
  pub resolved_at : Option ℕ
  pub closed_at : Option ℕ
  pub updated_at : ℕ

-- `AgentTicketStateRead`
pub record AgentTicketStateRead : Type 0 where
  pub state : TicketStateRead
  pub assignee_id : Option ℕ

abbrev pub state_read : Ticket → TicketStateRead
state_read t = record {
  id = t.id;
  ticket_number = t.ticket_number;
  status = t.status;
  resolved_at = t.resolved_at;
  closed_at = t.closed_at;
  updated_at = t.updated_at;
}

abbrev pub agent_state_read : Ticket → AgentTicketStateRead
agent_state_read t = record { state = state_read t; assignee_id = t.assignee_id }

-- Tickets and attachments by their primary key.
abbrev pub find_ticket : ℕ → List Ticket → Option Ticket
find_ticket = find (λ (t : Ticket). t.id)

abbrev pub modify_ticket : ℕ → (Ticket → Ticket) → List Ticket → List Ticket
modify_ticket = modify (λ (t : Ticket). t.id)

abbrev pub find_attachment : ℕ → List Attachment → Option Attachment
find_attachment = find (λ (a : Attachment). a.id)

abbrev pub modify_attachment : ℕ → (Attachment → Attachment) → List Attachment → List Attachment
modify_attachment = modify (λ (a : Attachment). a.id)

-- Every ticket meets the CHECK constraints.
abbrev pub IsChecked : List Ticket → Type 0
IsChecked = All (λ t. satisfies_checks t ≡ true)
