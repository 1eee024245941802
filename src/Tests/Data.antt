-- ===== src/Tests/Data.antt =====
-- Sample data.
use customer_portal.Prelude.{some, none, [], ◌∷◌, true, refl}
use customer_portal.Support.Models.{
  Ticket, Attachment, open_, resolved, closed, tickets_write, IsChecked,
}
use customer_portal.Support.World.{active, Db, World, Moment, Collaborators}

-- A ticket of user 7 in its first state.
abbrev pub ticket : Ticket
ticket = record {
  id = 1;
  ticket_number = "TCK-1";
  requester_id = 7;
  subject = "s";
  body = "b";
  category = "c";
  status = open_;
  created_at = 10;
  updated_at = 10;
  first_response_at = none;
  resolved_at = none;
  resolution_note = none;
  closed_at = none;
  closed_by = none;
  assignee_id = none;
}

abbrev pub resolved_ticket : Ticket
resolved_ticket = record ticket {
  id = 2;
  status = resolved;
  resolved_at = some 20;
  resolution_note = some "done";
}

abbrev pub closed_ticket : Ticket
closed_ticket = record ticket { id = 3; status = closed; closed_at = some 30; closed_by = some 7 }

abbrev pub attachment : Attachment
attachment = record {
  id = 5;
  uploaded_by = 7;
  ticket_id = none;
  ticket_reply_id = none;
  created_at = 1;
}

abbrev pub db : Db
db = record {
  tickets = ticket ∷ resolved_ticket ∷ closed_ticket ∷ [];
  replies = [];
  attachments = attachment ∷ [];
  audit = [];
}

abbrev pub world : {Store : Type 0} → Store → World Store
world s = record { db = db; committed = db; store = s; outbox = [] }

-- User 9 is an agent, and nobody is deactivated.
abbrev pub services : Collaborators
services = record {
  email_of = λ _. some "user@example.org";
  account_status = λ _. some active;
  scopes_of = λ _. tickets_write ∷ [];
  actor_role = λ _. none;
  delivers = λ _. true;
}

abbrev pub moment : Moment
moment = record { utc_now = 100; db_now = 101; others = λ d. d }

pub db-IsChecked : IsChecked db.tickets
db-IsChecked = (refl, (refl, (refl, tt)))
