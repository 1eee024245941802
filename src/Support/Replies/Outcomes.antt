-- ===== src/Support/Replies/Outcomes.antt =====
-- What a reply commits.
use customer_portal.Support.Replies.Writing.{limit_reply-Limits, inserts, Limits, Inserts}
use customer_portal.Support.Replies.Touching.{Touched}
use customer_portal.Session.{interleave}
use customer_portal.Support.Creation.Binding.{ids_of}
use customer_portal.Support.Replies.Attaching.{
  validate_for_reply-Validates, IsOwned, Attaches, Validates,
}
use customer_portal.Prelude.{
  [], inl, inr, ℕ, String, ◌≡◌, ◌⊎◌, ◌++◌, ◌∷◌, List, true, false, arith, Option, Option-cases, ◌∙◌,
  OnRow, Bool-cases, some, contains, none, ap, not, ◌||◌,
}
use customer_portal.Valkey.{Valkey}
use customer_portal.Support.Models.{
  Ticket, TicketReply, Result, ok, err, find_ticket, is_closed, reply_check, find_attachment,
  Attachment,
}
use customer_portal.Support.World.{Db, World, Moment, Collaborators, ◌>>=◌, after}
use customer_portal.Support.Repository.{get_by_id}
use customer_portal.Support.Attachments.{validate_for_reply, bind_all_to_reply}
use customer_portal.Support.Lifecycle.{load_visible}
use customer_portal.Support.Lifecycle.Outcomes.{can_see}
use customer_portal.Support.Replies.{
  CreateReply, new_reply, limit_reply, insert_reply, create_reply, finish_reply,
}

module _ (vk : Valkey) (c : Collaborators) (m : Moment) (id : ℕ) (r : CreateReply) where
  -- Attachment `j` is bound to the reply if the request asks for it, and then it was the author's, and
  -- bound to no reply.
  abbrev pub Bound : ℕ → Db → Db → Db → Type 0
  Bound j read d d' =
      IsOwned (contains j r.attachment_ids) r.actor_id (find_attachment j read.attachments)
      × Attaches (contains j r.attachment_ids) id (find_attachment j d.attachments)
          (find_attachment j d'.attachments)

  abbrev pub Replies : ℕ → World vk.Store → Result TicketReply × World vk.Store → Type 0
  Replies j w (ok reply, w') =
      (reply ≡ new_reply m.db_now id r)
      × (reply_check reply ≡ true)
      × (w'.committed.replies ≡ (m.others w.committed).replies ++ reply ∷ [])
      × Bound j w.committed (m.others w.committed) w'.committed
      × OnRow
          (λ t.
            (can_see r.kind r.actor_id t ≡ true)
            × (is_closed t.status ≡ false)
            × Touched vk c m id r t (find_ticket r.ticket_id (m.others w.committed).tickets)
                (m.others w.committed).tickets (m.others w.committed).audit w'.committed)
          (find_ticket r.ticket_id w.committed.tickets)
  Replies j w (err e, w') = (w'.committed ≡ w.committed) ⊎ (w'.committed ≡ m.others w.committed)

  abbrev closed : {A : Type 0} → Result A × World vk.Store → Result A × World vk.Store
  closed (x, w') = (x, record w' { db = w'.committed })

  -- The caller may write to the ticket that the session has read.
  abbrev Admits : Ticket → World vk.Store → Type 0
  Admits t w =
      (find_ticket r.ticket_id w.committed.tickets ≡ some t)
      × (can_see r.kind r.actor_id t ≡ true)
      × (is_closed t.status ≡ false)

  inserted-Replies :
      (j : ℕ) (t : Ticket) (as_ : List Attachment) (w w1 : World vk.Store)
      (q : Result TicketReply × World vk.Store)
      → Admits t w
      → w1.committed ≡ m.others w.committed
      → w1.db ≡ m.others w.committed
      → ids_of as_ ≡ r.attachment_ids
      → IsOwned (contains j r.attachment_ids) r.actor_id (find_attachment j w.committed.attachments)
      → Inserts vk c m id r j t as_ w1 q
      → Replies j w (closed q)
  inserted-Replies j t as_ w w1 (ok reply, w') (found, sees, not_closed) k d ids owned h =
      let (same, good, replies, attaches, touched) = rw (d, ids) at h in
      (same, good, replies, (owned, attaches), rw found (sees, not_closed, touched))
  inserted-Replies j t as_ w w1 (err e, w') admits k d ids owned h = inr (h ∙ k)

  validated-Replies :
      (users : Option (ℕ → Option String)) (uuid_text : ℕ → String) (j : ℕ) (t : Ticket)
      (w w1 w2 : World vk.Store) (x : Result (List Attachment))
      → Admits t w
      → w1.committed ≡ w.committed
      → w1.db ≡ w.committed
      → Validates j r.actor_id r.attachment_ids w1 (x, w2)
      → Replies j w (
          closed (
            after x
              (λ as_. interleave m.others >>= λ _.
                insert_reply vk (new_reply m.db_now id r) >>= λ _.
                bind_all_to_reply id as_ >>= λ _. finish_reply vk c users uuid_text m id r t)
              w2))
  unfolding interleave ◌>>=◌
  validated-Replies users uuid_text j t w w1 w2 (ok as_) admits k d (same, ids, owned) = rw same (
      inserted-Replies j t as_ w
        (record w1 { db = m.others w1.db; committed = m.others w1.committed }) _ admits
        (ap m.others k) (ap m.others d) ids (rw d at owned)
        (inserts vk c m id r users uuid_text j t as_
          (record w1 { db = m.others w1.db; committed = m.others w1.committed })))
  validated-Replies users uuid_text j t w w1 w2 (err e) admits k d same = inl (rw same k)

  limited-Replies :
      (users : Option (ℕ → Option String)) (uuid_text : ℕ → String) (j : ℕ) (t : Ticket)
      (w w1 : World vk.Store) (x : Result (Unit {0}))
      → Admits t w
      → Limits vk c m id r (record w { db = w.committed }) (x, w1)
      → Replies j w (
          closed (
            after x
              (λ _. validate_for_reply r.actor_id r.attachment_ids >>= λ as_.
                interleave m.others >>= λ _. insert_reply vk (new_reply m.db_now id r) >>= λ _.
                bind_all_to_reply id as_ >>= λ _. finish_reply vk c users uuid_text m id r t)
              w1))
  unfolding interleave ◌>>=◌
  limited-Replies users uuid_text j t w w1 (ok u) admits lim =
      validated-Replies users uuid_text j t w w1 _ _ admits lim.0 lim.1
        (validate_for_reply-Validates j r.actor_id r.attachment_ids w1)
  limited-Replies users uuid_text j t w w1 (err e) admits lim = inl lim.0

  admitted-Replies :
      (users : Option (ℕ → Option String)) (uuid_text : ℕ → String) (j : ℕ) (t : Ticket)
      (w : World vk.Store)
      → Admits t w
      → Replies j w (create_reply vk c users uuid_text m id r w)
  unfolding create_reply load_visible get_by_id ◌>>=◌
  admitted-Replies users uuid_text j t w admits = ground (
    arith,
    limited-Replies users uuid_text j t w
        (limit_reply vk r.actor_id (record w { db = w.committed })).1
        (limit_reply vk r.actor_id (record w { db = w.committed })).0 admits
        (limit_reply-Limits vk c m id r (record w { db = w.committed })),
  )

  -- A request for a ticket that is not there, not the caller's, or closed.
  abbrev Rejects : World vk.Store → Result TicketReply × World vk.Store → Type 0
  Rejects w (ok reply, w') = ⊥
  Rejects w (err e, w') = w'.committed ≡ w.committed

  Rejects-Replies :
      (j : ℕ) (w : World vk.Store) (q : Result TicketReply × World vk.Store)
      → Rejects w q
      → Replies j w q
  Rejects-Replies j w (ok reply, w') h = absurd h
  Rejects-Replies j w (err e, w') h = inl h

  missing-Rejects :
      (users : Option (ℕ → Option String)) (uuid_text : ℕ → String) (w : World vk.Store)
      → find_ticket r.ticket_id w.committed.tickets ≡ none
      → Rejects w (create_reply vk c users uuid_text m id r w)
  unfolding create_reply load_visible get_by_id ◌>>=◌
  missing-Rejects users uuid_text w e = ground (arith, e)

  barred-Rejects :
      (users : Option (ℕ → Option String)) (uuid_text : ℕ → String) (t : Ticket)
      (w : World vk.Store)
      → find_ticket r.ticket_id w.committed.tickets ≡ some t
      → not (can_see r.kind r.actor_id t) || is_closed t.status ≡ true
      → Rejects w (create_reply vk c users uuid_text m id r w)
  unfolding create_reply load_visible get_by_id ◌>>=◌
  barred-Rejects users uuid_text t w e h = ground (arith, e, h)

  -- Either a reply is answered, and then its author may see the ticket, which was not closed when it was
  -- read, an internal reply's author is an agent, and committed are, on top of what other sessions
  -- committed, exactly that reply; the binding to it of the attachments that the request names, which
  -- were the author's and bound to no reply, while any other is as it was; and what the reply does to its
  -- ticket. That is, if a customer replies to a resolved ticket, a reopening with its audit entry where
  -- the row is resolved for at most seven days when it is written, and nothing where it is not; if not,
  -- an update that sets waiting_on_support for a customer's reply to a ticket that waits for the customer,
  -- waiting_on_customer for an agent's public reply to one that is not resolved, and the first response
  -- for an agent's public reply if there was none. Or the request raises, and this session has committed
  -- nothing.
  pub create_reply-Replies :
      (users : Option (ℕ → Option String)) (uuid_text : ℕ → String) (j : ℕ) (w : World vk.Store)
      → Replies j w (create_reply vk c users uuid_text m id r w)
  create_reply-Replies users uuid_text j w =
      let q = create_reply vk c users uuid_text m id r w in
      elim (Option-cases (find_ticket r.ticket_id w.committed.tickets)) [
        | inl e ↦ Rejects-Replies j w q (missing-Rejects users uuid_text w e)
        | inr (t, e) ↦ elim (Bool-cases (not (can_see r.kind r.actor_id t) || is_closed t.status)) [
          | inl barred ↦ Rejects-Replies j w q (barred-Rejects users uuid_text t w e barred)
          | inr free ↦
              admitted-Replies users uuid_text j t w (e, ground (arith, free), ground (arith, free))
        ]
      ]
