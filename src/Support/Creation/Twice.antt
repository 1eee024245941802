-- ===== src/Support/Creation/Twice.antt =====
-- A create request that is sent again.
use mathlib.Core.List.{Perm}
use customer_portal.Prelude.{
  none, some, [], inl, inr, refl, ℕ, String, ◌≡◌, ◌++◌, ◌∷◌, List, true, false, arith, Option,
}
use customer_portal.Valkey.{Valkey, idempotency_key, envelope}
use customer_portal.Support.Models.{Ticket, Result, ok, err, find_ticket, IsChecked}
use customer_portal.Support.World.{Db, World, Moment, Collaborators, in_session}
use customer_portal.Support.Lifecycle.{is_deactivated}
use customer_portal.Support.Lifecycle.Outcomes.{succeeds}
use customer_portal.Support.Creation.{
  CreateTicket, Canonical, Fresh, hash_request, new_ticket, create_ticket,
}
use customer_portal.Support.Creation.Atomic.{Creates, create_ticket-Creates}
use customer_portal.Support.Creation.Replay.{create_ticket-replayed, reordered, hash_request-Perm}
use customer_portal.Support.Evolution.{Evolves, TicketKept, RowKept}
use customer_portal.Support.Evolution.Keeps.{Rely}
use customer_portal.Support.Evolution.Requests.{Keeps-create_ticket}
use customer_portal.Support.Evolution.Rules.{Evolves-refl}

find_ticket-append :
    (t : Ticket) (ts : List Ticket)
    → find_ticket t.id ts ≡ none
    → find_ticket t.id (ts ++ t ∷ []) ≡ some t
find_ticket-append t [] h = ground arith
find_ticket-append t (x ∷ ts) h = ground (arith, find_ticket-append t ts)

of_kept :
    (t : Ticket) (o : Option Ticket)
    → RowKept TicketKept (some t) o
    → (t' : Ticket) × (o ≡ some t') × TicketKept t t'
of_kept t none k = ground arith
of_kept t (some t') k = (t', refl, k)

kept_row :
    (d d' : Db) (id : ℕ) (t : Ticket)
    → Evolves d d'
    → find_ticket id d.tickets ≡ some t
    → (t' : Ticket) × (find_ticket id d'.tickets ≡ some t') × TicketKept t t'
kept_row d d' id t ev e = of_kept t (find_ticket id d'.tickets) (rw e at (ev.tickets id))

module _ (vk : Valkey) (hash : Canonical → String) (elapse : ℕ → vk.Store → vk.Store)
    (c : Collaborators) (m m' : Moment) (f f' : Fresh) (r : CreateTicket) (ids : List ℕ)
    (w : World vk.Store) where
  -- The request, with the attachments in the order `ids`, answers the ticket as it has become, and
  -- writes nothing.
  abbrev pub SameAgain : World vk.Store → Type 0
  SameAgain w1 =
      (t' : Ticket) × TicketKept (new_ticket m.db_now f r) t'
      × (create_ticket vk hash elapse c m' f' (reordered r ids) w1
          ≡ (ok t', record w1 { db = m'.others w1.committed; committed = m'.others w1.committed }))

  create_ticket-IsChecked :
      Rely m
      → IsChecked w.committed.tickets
      → IsChecked (create_ticket vk hash elapse c m f r w).1.committed.tickets
  unfolding create_ticket in_session
  create_ticket-IsChecked rely h =
      let same = Evolves-refl w.committed h in
      ((Keeps-create_ticket vk hash elapse c m rely r f).at (record w { db = w.committed })
        (record { seen = same; kept = same })).kept.checked

  answers_again :
      (w1 : World vk.Store) (t' : Ticket)
      → vk.get (idempotency_key r.requester_id r.key) w1.store
        ≡ some (envelope (hash_request vk hash elapse r) (some f.id))
      → Perm r.attachment_ids ids
      → is_deactivated (c.account_status r.requester_id) ≡ false
      → find_ticket f.id (m'.others w1.committed).tickets ≡ some t'
      → create_ticket vk hash elapse c m' f' (reordered r ids) w1
        ≡ (ok t', record w1 { db = m'.others w1.committed; committed = m'.others w1.committed })
  answers_again w1 t' used p active there =
      elim (create_ticket-replayed vk hash elapse c m' f' (reordered r ids) w1
        (hash_request vk hash elapse r) f.id active used) [
          | inl (e, q) ↦ rw there at q
          | inr (ne, q) ↦ elim (ne (hash_request-Perm vk hash elapse r ids p)) [ ]
        ]

  again :
      (x : Result Ticket) (w1 : World vk.Store)
      → Creates vk hash elapse c m f r 0 w (x, w1)
      → succeeds (x, w1) ≡ true
      → IsChecked w1.committed.tickets
      → Rely m'
      → Perm r.attachment_ids ids
      → is_deactivated (c.account_status r.requester_id) ≡ false
      → find_ticket f.id (m.others w.committed).tickets ≡ none
      → SameAgain w1
  again (err e) w1 made well h rely p active fresh = ground arith
  again (ok t) w1 made well h rely p active fresh =
      let n = new_ticket m.db_now f r in
      let here = find_ticket-append n (m.others w.committed).tickets fresh in
      let there : find_ticket f.id w1.committed.tickets ≡ some n = rw (made.0.1, made.0.0) here in
      let (t', e, kept) =
        kept_row w1.committed (m'.others w1.committed) f.id n (rely.at w1.committed h) there in
      (t', kept, answers_again w1 t' made.1 p active e)

  -- A create request whose key is not in use succeeds, with an id that no ticket has, for a user who is
  -- not deactivated. If it is sent again, with its attachments in any order and whatever evolutions other
  -- sessions commit meanwhile, it answers the same ticket, as it has become, and writes nothing.
  pub create_ticket_twice :
      IsChecked w.committed.tickets
      → Rely m
      → Rely m'
      → Perm r.attachment_ids ids
      → is_deactivated (c.account_status r.requester_id) ≡ false
      → vk.get (idempotency_key r.requester_id r.key) w.store ≡ none
      → find_ticket f.id (m.others w.committed).tickets ≡ none
      → succeeds (create_ticket vk hash elapse c m f r w) ≡ true
      → SameAgain (create_ticket vk hash elapse c m f r w).1
  create_ticket_twice h rely rely' p active free fresh well =
      let (x, w1) = create_ticket vk hash elapse c m f r w in
      again x w1 (create_ticket-Creates vk hash elapse c m f r 0 w free) well
        (create_ticket-IsChecked rely h) rely' p active fresh
