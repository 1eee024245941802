-- ===== src/Support/Router.antt =====
-- The endpoints of app/modules/support/router.py that write, and `resolve_actor_kind` of
-- dependencies.py.
use customer_portal.Prelude.{ℕ, String, Option, List, [], ◌∷◌, if◌then◌else◌}
use customer_portal.Valkey.{Valkey}
use customer_portal.Support.Models.{ActorKind, customer, agent, Scope, can_write, Visibility}
use customer_portal.Support.World.{World, Collaborators, Moment}
use customer_portal.Support.Lifecycle.{
  resolve_ticket, close_ticket, reopen_ticket, assign_ticket, unassign_ticket,
}
use customer_portal.Support.Creation.{Canonical, Fresh, create_ticket}
use customer_portal.Support.Replies.{create_reply}

-- `AuthenticatedUser`, as far as this module reads it.
pub record CurrentUser : Type 0 where
  pub user_id : ℕ
  pub scopes : List Scope

unfoldable pub resolve_actor_kind : List Scope → ActorKind
resolve_actor_kind scopes = if can_write scopes then agent else customer

-- The path and body parameters of each endpoint; `Fresh`, and the id of a reply, are the server's.
pub data Request : Type 0 where
  post_ticket : Fresh → String → String → String → String → List ℕ → Request
  post_reply : ℕ → ℕ → String → Option Visibility → List ℕ → Request
  post_resolve : ℕ → String → Request
  post_close post_reopen : ℕ → Request
  post_assign : ℕ → ℕ → Request
  delete_assign : ℕ → Request

-- What does not change between requests: the cache server, SHA-256, what other requests do to the
-- cache during a poll's sleep, the other services, and the text of a UUID.
pub record Deployment (vk : Valkey) : Type 0 where
  pub hash : Canonical → String
  pub elapse : ℕ → vk.Store → vk.Store
  pub services : Collaborators
  pub user_service : Option (ℕ → Option String)
  pub uuid_text : ℕ → String

module _ (vk : Valkey) (d : Deployment vk) where
  -- What is left of the world after one request; the response is not looked at.
  unfoldable pub handle : Moment → CurrentUser → Request → World vk.Store → World vk.Store
  handle m u (post_ticket f key subject body category attachment_ids) w =
      (create_ticket vk d.hash d.elapse d.services m f
        (record {
          requester_id = u.user_id;
          key = key;
          subject = subject;
          body = body;
          category = category;
          attachment_ids = attachment_ids;
        })
        w).1
  handle m u (post_reply reply_id id body visibility attachment_ids) w =
      (create_reply vk d.services d.user_service d.uuid_text m reply_id
        (record {
          ticket_id = id;
          actor_id = u.user_id;
          kind = resolve_actor_kind u.scopes;
          body = body;
          visibility = visibility;
          attachment_ids = attachment_ids;
        })
        w).1
  handle m u (post_resolve id note) w =
      (resolve_ticket d.services m id u.user_id (resolve_actor_kind u.scopes) note w).1
  handle m u (post_close id) w =
      (close_ticket d.services m id u.user_id (resolve_actor_kind u.scopes) w).1
  handle m u (post_reopen id) w =
      (reopen_ticket d.services m id u.user_id (resolve_actor_kind u.scopes) w).1
  handle m u (post_assign id assignee) w =
      (assign_ticket d.services m id u.user_id u.scopes assignee w).1
  handle m u (delete_assign id) w = (unassign_ticket d.services m id u.user_id u.scopes w).1

  unfoldable pub serve : List (Moment × CurrentUser × Request) → World vk.Store → World vk.Store
  serve [] w = w
  serve ((m, u, q) ∷ rest) w = serve rest (handle m u q w)
