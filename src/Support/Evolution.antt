-- ===== src/Support/Evolution.antt =====
-- How the database may change while requests are served: what is never undone.
pub mod Rules
pub mod Keeps
pub mod Statements
pub mod CacheSteps
pub mod Requests
pub mod History
use customer_portal.Prelude.{
  ℕ, ◌≡◌, refl, ◌∙◌, Bool, true, Option, none, some, List, ◌∷◌, ◌++◌, All, is_some, find, arith,
  modify,
}
use customer_portal.Support.Models.{
  Ticket, Attachment, satisfies_checks, is_closed, find_ticket, find_attachment, IsChecked,
}
use customer_portal.Support.World.{Db}

-- A ticket keeps what identifies it; once closed it keeps its state and its assignee, once resolved
-- it has a note, and once answered it has the time of the answer.
pub record TicketKept (t t' : Ticket) : Type 0 where
  pub id : t'.id ≡ t.id
  pub ticket_number : t'.ticket_number ≡ t.ticket_number
  pub requester_id : t'.requester_id ≡ t.requester_id
  pub subject : t'.subject ≡ t.subject
  pub body : t'.body ≡ t.body
  pub category : t'.category ≡ t.category
  pub created_at : t'.created_at ≡ t.created_at
  pub status : is_closed t.status ≡ true → t'.status ≡ t.status
  pub closed_at : is_closed t.status ≡ true → t'.closed_at ≡ t.closed_at
  pub closed_by : is_closed t.status ≡ true → t'.closed_by ≡ t.closed_by
  pub resolved_at : is_closed t.status ≡ true → t'.resolved_at ≡ t.resolved_at
  pub note : is_closed t.status ≡ true → t'.resolution_note ≡ t.resolution_note
  pub assignee_id : is_closed t.status ≡ true → t'.assignee_id ≡ t.assignee_id
  pub noted : is_some t.resolution_note ≡ true → is_some t'.resolution_note ≡ true
  pub answered : is_some t.first_response_at ≡ true → is_some t'.first_response_at ≡ true

-- An attachment keeps its owner, and a binding is never cleared or moved.
pub record AttachmentKept (a a' : Attachment) : Type 0 where
  pub uploaded_by : a'.uploaded_by ≡ a.uploaded_by
  pub ticket_id : is_some a.ticket_id ≡ true → a'.ticket_id ≡ a.ticket_id
  pub ticket_reply_id : is_some a.ticket_reply_id ≡ true → a'.ticket_reply_id ≡ a.ticket_reply_id

-- A row that is there stays, and is related to what it was.
abbrev pub RowKept : {R : Type 0} → (R → R → Type 0) → Option R → Option R → Type 0
RowKept Kept none o = Unit
RowKept Kept (some r) none = ⊥
RowKept Kept (some r) (some r') = Kept r r'

abbrev pub Extends : {A : Type 0} → List A → List A → Type 0
Extends {A} old new = (more : List A) × (new ≡ old ++ more)

pub record Evolves (d d' : Db) : Type 0 where
  pub tickets : (id : ℕ) → RowKept TicketKept (find_ticket id d.tickets) (find_ticket id d'.tickets)
  pub attachments :
      (id : ℕ)
      → RowKept AttachmentKept
          (find_attachment id d.attachments)
          (find_attachment id d'.attachments)
  pub audit : Extends d.audit d'.audit
  pub replies : Extends d.replies d'.replies
  pub checked : IsChecked d'.tickets
