-- ===== src/Support/Evolution/History.antt =====
-- Runs of requests.
use customer_portal.Support.Models.{IsChecked}
use customer_portal.Support.World.{Db, Moment, World}
use customer_portal.Valkey.{Valkey}
use customer_portal.Prelude.{◌∷◌, [], List, All}
use customer_portal.Support.Router.{
  CurrentUser, Request, post_ticket, post_reply, post_resolve, post_close, post_reopen, post_assign,
  delete_assign, Deployment, handle, serve, resolve_actor_kind,
}
use customer_portal.Support.Evolution.{Evolves}
use customer_portal.Support.Evolution.Rules.{Evolves-refl}
use customer_portal.Support.Evolution.Keeps.{Since, Rely}
use customer_portal.Support.Evolution.Requests.{
  Keeps-resolve_ticket, Keeps-create_ticket, Keeps-create_reply, Keeps-close_ticket,
  Keeps-reopen_ticket, Keeps-assign_ticket, Keeps-unassign_ticket,
}

module _ (vk : Valkey) (d : Deployment vk) where
  handle-Since :
      (start : Db) (m : Moment) (u : CurrentUser) (q : Request) (w : World vk.Store)
      → Rely m
      → Since start w
      → Since start (handle vk d m u q w)
  unfolding handle
  handle-Since start m u (post_ticket f key subject body category ids) w rely =
      (Keeps-create_ticket vk d.hash d.elapse d.services m rely _ f).at w
  handle-Since start m u (post_reply reply_id id body visibility ids) w rely =
      (Keeps-create_reply vk d.services m rely d.user_service d.uuid_text reply_id _).at w
  handle-Since start m u (post_resolve id note) w rely =
      (Keeps-resolve_ticket d.services m rely id u.user_id (resolve_actor_kind u.scopes) note).at w
  handle-Since start m u (post_close id) w rely =
      (Keeps-close_ticket d.services m rely id u.user_id (resolve_actor_kind u.scopes)).at w
  handle-Since start m u (post_reopen id) w rely =
      (Keeps-reopen_ticket d.services m rely id u.user_id (resolve_actor_kind u.scopes)).at w
  handle-Since start m u (post_assign id assignee) w rely =
      (Keeps-assign_ticket d.services m rely id u.user_id u.scopes assignee).at w
  handle-Since start m u (delete_assign id) w rely =
      (Keeps-unassign_ticket d.services m rely id u.user_id u.scopes).at w

  serve-Since :
      (start : Db) (qs : List (Moment × CurrentUser × Request)) (w : World vk.Store)
      → All (λ q. Rely q.0) qs
      → Since start w
      → Since start (serve vk d qs w)
  unfolding serve
  serve-Since start [] w rely h = h
  serve-Since start ((m, u, q) ∷ qs) w rely h =
      serve-Since start qs (handle vk d m u q w) rely.1 (handle-Since start m u q w rely.0 h)

  -- Whatever requests are served, failing or not, and whatever evolutions other sessions commit
  -- between a request's reads and its writes, the committed database evolves, if its tickets met the
  -- CHECK constraints before: every ticket, attachment, reply and audit entry stays; a ticket keeps
  -- what identifies it, a closed one its status, closing, resolution and assignee, a note or a first
  -- response is not cleared; an attachment's binding is not cleared or moved; replies and audit
  -- entries are only appended; and the tickets meet the CHECK constraints.
  pub serve-Evolves :
      (qs : List (Moment × CurrentUser × Request)) (w : World vk.Store)
      → All (λ q. Rely q.0) qs
      → IsChecked w.committed.tickets
      → Evolves w.committed (serve vk d qs (record w { db = w.committed })).committed
  serve-Evolves qs w rely h =
      let same = Evolves-refl w.committed h in
      (serve-Since w.committed qs (record w { db = w.committed }) rely
        (record { seen = same; kept = same })).kept
