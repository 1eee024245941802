-- ===== src/Tests/Requests.antt =====
-- Create and reply requests, and the jobs, at concrete inputs.
use customer_portal.Support.Lifecycle.Outcomes.{succeeds}
use customer_portal.Support.Attachments.{
  validate_for_ticket, get_attachment, bind_all_to_ticket, bind_to_ticket, update_attachment,
}
use customer_portal.Valkey.{idempotency_key, envelope, ticket_create_rate_key}
use mathlib.Core.List.Perm
use customer_portal.Prelude.{none, some, [], ◌∷◌, refl, ℕ, ◌≡◌, true, String, not, arith}
use customer_portal.Support.Models.{Attachment, agent, internal, find_attachment}
use customer_portal.Support.World.{World, Moment, on_error, ◌>>=◌}
use customer_portal.Support.Repository.{transition_where}
use customer_portal.Support.Lifecycle.{reopening}
use customer_portal.Support.Creation.{
  CreateTicket, Canonical, Fresh, create_ticket, hash_request, create_claimed, insert_claimed,
  limit_creation, insert_ticket, notify_created,
}
use customer_portal.Support.Creation.Atomic.{Creates, create_ticket-Creates}
use customer_portal.Support.Creation.Twice.{SameAgain, create_ticket_twice}
use customer_portal.Support.Replies.{CreateReply, create_reply}
use customer_portal.Support.Replies.Outcomes.{Replies, create_reply-Replies}
use customer_portal.Support.Jobs.{auto_close_where, purge_job}
use customer_portal.Support.Jobs.Laws.{auto_close_where-reopening, purge_job-replied}
use customer_portal.Support.Evolution.Keeps.{Rely}
use customer_portal.Support.Evolution.Rules.{Evolves-refl}
use customer_portal.Tests.Data.{world, services, moment, db-IsChecked, resolved_ticket, attachment}
use customer_portal.Support.Cache.{resolve, claim, release, record_creation}
use customer_portal.Tests.Cache.{put_ne, put, valkey, valkey_start, Entries}

abbrev request : CreateTicket
request = record {
  requester_id = 7;
  key = "k";
  subject = "s";
  body = "b";
  category = "c";
  attachment_ids = 5 ∷ [];
}

abbrev fresh : Fresh
fresh = record { id = 4; number = "TCK-4" }

abbrev hash : Canonical → String
hash r = r.subject

abbrev elapse : ℕ → Entries → Entries
elapse n s = s

abbrev start : World valkey.Store
start = world valkey_start

-- What the first request leaves.
abbrev created : World valkey.Store
created = (create_ticket valkey hash elapse services moment fresh request start).1

moment-Rely : Rely moment
moment-Rely = record { at = λ d h. Evolves-refl d h }

create_ticket-Creates_example :
    Creates valkey hash elapse services moment fresh request 5 start
      (create_ticket valkey hash elapse services moment fresh request start)
create_ticket-Creates_example =
    create_ticket-Creates valkey hash elapse services moment fresh request 5 start refl

rate_key_free :
    put (idempotency_key 7 "k") (some (envelope "s" none)) valkey_start (ticket_create_rate_key 7)
    ≡ none
rate_key_free =
    put_ne (ticket_create_rate_key 7) (idempotency_key 7 "k") (some (envelope "s" none))
      valkey_start (λ e. ground arith)

created_succeeds :
    succeeds (create_ticket valkey hash elapse services moment fresh request start) ≡ true
unfolding create_ticket claim hash_request create_claimed on_error insert_claimed limit_creation
    record_creation validate_for_ticket get_attachment bind_all_to_ticket bind_to_ticket
    update_attachment insert_ticket release resolve notify_created ◌>>=◌
created_succeeds = rw rate_key_free refl

create_ticket_twice_example :
    SameAgain valkey hash elapse services moment moment fresh fresh request (5 ∷ []) start created
create_ticket_twice_example =
    create_ticket_twice valkey hash elapse services moment moment fresh fresh request (5 ∷ []) start
      db-IsChecked moment-Rely moment-Rely (Perm.refl (5 ∷ [])) refl refl refl created_succeeds

-- A cache where the key leads to ticket 1.
abbrev used : World valkey.Store
used = world (put (idempotency_key 7 "k") (some (envelope "s" (some 1))) valkey_start)

abbrev note : CreateReply
note = record {
  ticket_id = 1;
  actor_id = 9;
  kind = agent;
  body = "b";
  visibility = some internal;
  attachment_ids = [];
}

create_reply-Replies_example :
    Replies valkey services moment 11 note 5 start
      (create_reply valkey services none (λ n. "u") moment 11 note start)
create_reply-Replies_example =
    create_reply-Replies valkey services moment 11 note none (λ n. "u") 5 start

auto_close_where-reopening_example :
    auto_close_where 50 resolved_ticket ≡ not (transition_where 50 reopening resolved_ticket)
auto_close_where-reopening_example = auto_close_where-reopening 50 resolved_ticket refl refl

-- Eight days later.
abbrev later : Moment
later = record moment { db_now = 691200000000 }

abbrev replied : Attachment
replied = record attachment { ticket_reply_id = some 11 }

purge_job-replied_example :
    find_attachment 5 (purge_job (λ rows. rows) 691200000000 (replied ∷ [])) ≡ none
purge_job-replied_example =
    purge_job-replied (λ rows. rows) 691200000000 5 11 (replied ∷ []) replied refl refl refl
      (omega arith)
