-- ===== src/Support/World.antt =====
-- The state that a request works on, and the actions of the service methods: state with errors,
-- in a database session whose writes are lost unless they are committed.
use customer_portal.Prelude.{ℕ, String, Bool, Option, none, some, List, [], ◌∷◌, ◌++◌}
use customer_portal.Support.Models.{Ticket, TicketReply, Attachment, Scope, SupportError, ok}
use customer_portal.Session
use customer_portal.Session.{State}
unfoldable pub use customer_portal.Session.{
  pure, raise, or_raise, raise_if, interleave, commit, in_session, try_send, on_error, after,
  handled,
}

-- What `AuditLogService.record_event` inserts into `audit_log`, without the columns that the
-- database computes.
pub record AuditEvent : Type 0 where
  pub category : String
  pub event : String
  pub actor_id : ℕ
  pub actor_role : Option String
  pub target_id : Option ℕ
  pub outcome : Option String
  pub payload : Option (String × String)

pub record Db : Type 0 where
  pub tickets : List Ticket
  pub replies : List TicketReply
  pub attachments : List Attachment
  pub audit : List AuditEvent

pub data Email : Type 0 where
  ticket_created : String → String → Email
  ticket_resolved : String → String → String → Email
  ticket_reply : String → String → Email
  ticket_reply_queue : String → Email

pub data AccountStatus : Type 0 where
  pending active deactivated : AccountStatus

-- The services that this module calls: users, roles (`actor_role` is what `_resolve_actor_role`
-- makes of a user's grants), and the mail server, which accepts a message or fails.
pub record Collaborators : Type 0 where
  pub email_of : ℕ → Option String
  pub account_status : ℕ → Option AccountStatus
  pub scopes_of : ℕ → List Scope
  pub actor_role : ℕ → Option String
  pub delivers : Email → Bool

-- The clocks that one request reads: `datetime.now(UTC)`, and `now()` of the database; and what
-- other sessions commit between the request's reads and its first write.
pub record Moment : Type 0 where
  pub utc_now : ℕ
  pub db_now : ℕ
  pub others : Db → Db

abbrev pub World : Type 0 → Type 0
World Store = State Db Store Email

abbrev pub Action : Type 0 → Type 0 → Type 0
Action Store A = Session.Action Db Store Email SupportError A

module _ {Store : Type 0} where
  -- `try: send … except Exception: logger.exception(…)`
  unfoldable pub send : Collaborators → Email → Action Store (Unit {0})
  unfolding try_send
  send c e = try_send (c.delivers e) e

  -- `if email is not None: …`
  unfoldable pub send_to :
      Option String → (String → Action Store (Unit {0})) → Action Store (Unit {0})
  send_to none k w = (ok tt, w)
  send_to (some to) k w = k to w

  -- `AuditLogService.record_event`: no commit of its own.
  unfoldable pub record_event :
      Collaborators → String → ℕ → ℕ → Option (String × String) → Action Store (Unit {0})
  record_event c event actor target payload w = (
    ok tt,
    record w {
      db = record w.db {
        audit =
            w.db.audit
            ++ record {
              category = "tickets";
              event = event;
              actor_id = actor;
              actor_role = c.actor_role actor;
              target_id = some target;
              outcome = some "success";
              payload = payload;
            }
              ∷ [];
      };
    },
  )

infixl 5 ◌>>=◌ ◌>>◌
-- Opening this opens the actions above too.
unfoldable pub ◌>>=◌ : {Store A B : Type 0} → Action Store A → (A → Action Store B) → Action Store B
unfolding pure raise or_raise raise_if interleave commit in_session send send_to record_event
    Session.◌>>=◌
m >>= f = Session.◌>>=◌ m f

abbrev pub ◌>>◌ : {Store A B : Type 0} → Action Store A → Action Store B → Action Store B
m >> k = m >>= λ _. k
