-- ===== src/Tests/Lifecycle.antt =====
-- The ticket service at concrete tickets.
use customer_portal.Support.Replies.{create_reply}
use customer_portal.Support.Evolution.History.{serve-Evolves}
use customer_portal.Support.Evolution.Rules.{Evolves-refl}
use customer_portal.Support.Router.{Deployment, CurrentUser, serve, post_close, post_reopen}
use customer_portal.Support.Evolution.Keeps.{Rely}
use customer_portal.Support.Evolution.{Evolves}
use customer_portal.Support.Access.{not_found_if_hidden}
use customer_portal.Support.World.{World}
use customer_portal.Support.Lifecycle.Outcomes.{succeeds, succeeds-resolve_ticket}
use customer_portal.Prelude.{none, [], ◌∷◌, refl, ◌≡◌, true, String, Option, ℕ, List}
use customer_portal.Support.Models.{agent, customer, err, ticket_not_found, Result, Visibility}
use customer_portal.Support.Lifecycle.{resolve_ticket, close_ticket, reopen_ticket}
use customer_portal.Tests.Data.{world, services, moment, db, db-IsChecked}
use customer_portal.Tests.Cache.{valkey, valkey_start}

abbrev w : World Unit
w = world tt

succeeds-resolve_ticket_example :
    succeeds (resolve_ticket services moment 1 9 agent "fixed" w) ≡ true
succeeds-resolve_ticket_example =
    succeeds-resolve_ticket services moment 1 9 agent w "fixed" db-IsChecked

abbrev hidden : {A : Type 0} → Result A × World valkey.Store
hidden = (err ticket_not_found, world valkey_start)

not_found_if_hidden_example :
    ((note : String)
      → resolve_ticket services moment 2 8 customer note (world valkey_start) ≡ hidden)
    × (close_ticket services moment 2 8 customer (world valkey_start) ≡ hidden)
    × (reopen_ticket services moment 2 8 customer (world valkey_start) ≡ hidden)
    × ((users : Option (ℕ → Option String)) (uuid_text : ℕ → String) (reply_id : ℕ) (body : String)
          (visibility : Option Visibility) (attachment_ids : List ℕ)
        → create_reply valkey services users uuid_text moment reply_id
            (record {
              ticket_id = 2;
              actor_id = 8;
              kind = customer;
              body = body;
              visibility = visibility;
              attachment_ids = attachment_ids;
            })
            (world valkey_start)
          ≡ hidden)
not_found_if_hidden_example =
    not_found_if_hidden valkey services moment (world valkey_start) 2 8 customer refl

-- Two requests, the second of which comes after an interleaved one.
abbrev deployment : Deployment valkey
deployment = record {
  hash = λ r. r.subject;
  elapse = λ n s. s;
  services = services;
  user_service = none;
  uuid_text = λ n. "u";
}

abbrev user : CurrentUser
user = record { user_id = 7; scopes = [] }

moment-Rely : Rely moment
moment-Rely = record { at = λ d h. Evolves-refl d h }

serve-Evolves_example :
    Evolves db
      (serve valkey deployment
        ((moment, user, post_close 1) ∷ (moment, user, post_reopen 1) ∷ [])
        (world valkey_start)).committed
serve-Evolves_example =
    serve-Evolves valkey deployment
      ((moment, user, post_close 1) ∷ (moment, user, post_reopen 1) ∷ []) (world valkey_start)
      (moment-Rely, (moment-Rely, tt)) db-IsChecked
