-- ===== src/Support/Replies/Writing.antt =====
-- The end of create_reply, from the insertion of the reply on.
use customer_portal.Support.Replies.Touching.{Touches, Touched, touch_ticket-Touches}
use customer_portal.Support.Creation.Binding.{ids_of}
use customer_portal.Support.Replies.Attaching.{bind_all_to_reply-BindsAll, Attaches, BindsAll}
use customer_portal.Prelude.{
  [], inl, inr, refl, ℕ, String, ◌≡◌, ◌++◌, ◌∷◌, List, true, arith, Option, ◌∙◌, Bool-cases,
  contains,
}
use customer_portal.Valkey.{Valkey}
use customer_portal.Support.Models.{
  Ticket, TicketReply, Result, ok, err, find_ticket, reply_check, find_attachment, Attachment,
}
use customer_portal.Support.World.{
  Db, World, Moment, Collaborators, ◌>>=◌, ◌>>◌, after, commit, pure,
}
use customer_portal.Support.Attachments.{bind_all_to_reply}
use customer_portal.Support.Cache.{record_reply, reply_retry_after}
use customer_portal.Support.Replies.{
  CreateReply, new_reply, limit_reply, insert_reply, touch_ticket, notify_reply, finish_reply,
}

module _ (vk : Valkey) (c : Collaborators) (m : Moment) (id : ℕ) (r : CreateReply) where
  abbrev pub Limits : World vk.Store → Result (Unit {0}) × World vk.Store → Type 0
  Limits w (x, w') = (w'.committed ≡ w.committed) × (w'.db ≡ w.db)

  pub limit_reply-Limits : (w : World vk.Store) → Limits w (limit_reply vk r.actor_id w)
  unfolding limit_reply record_reply reply_retry_after ◌>>=◌
  limit_reply-Limits w = ground arith

  -- It cannot fail: the code catches what the mail server raises.
  abbrev Notifies : World vk.Store → Result (Unit {0}) × World vk.Store → Type 0
  Notifies w (x, w') = (x ≡ ok tt) × (w'.committed ≡ w.committed)

  notify_reply-Notifies :
      (users : Option (ℕ → Option String)) (uuid_text : ℕ → String) (t : Ticket)
      (w : World vk.Store)
      → Notifies w (notify_reply vk c users uuid_text r t w)
  unfolding notify_reply ◌>>=◌
  notify_reply-Notifies users uuid_text t w = ground arith

  abbrev Finishes : Ticket → Db → World vk.Store → Result TicketReply × World vk.Store → Type 0
  Finishes t d w (ok reply, w') =
      (reply ≡ new_reply m.db_now id r)
      × Touched vk c m id r t (find_ticket r.ticket_id d.tickets) d.tickets d.audit w'.committed
      × (w'.committed.replies ≡ w.db.replies)
      × (w'.committed.attachments ≡ w.db.attachments)
  Finishes t d w (err e, w') = w'.committed ≡ w.committed

  finish_reply-Finishes :
      (users : Option (ℕ → Option String)) (uuid_text : ℕ → String) (t : Ticket) (d : Db)
      (w : World vk.Store)
      → w.db.tickets ≡ d.tickets
      → w.db.audit ≡ d.audit
      → Finishes t d w (finish_reply vk c users uuid_text m id r t w)
  unfolding finish_reply ◌>>=◌
  finish_reply-Finishes users uuid_text t d w e e' =
      let (x, w') = touch_ticket vk c m r t w in
      go x w' (touch_ticket-Touches vk c m id r t d w e e')
    where
      go :
          (x : Result (Unit {0})) (w' : World vk.Store)
          → Touches vk c m id r t d w (x, w')
          → Finishes t d w (
              after x
                (λ _. do
                  commit
                  notify_reply vk c users uuid_text r t
                  pure (new_reply m.db_now id r))
                w')
      go (ok u) w' h =
          let n = notify_reply-Notifies users uuid_text t (record w' { committed = w'.db }) in
          rw (n.0, n.1) (refl, h.0, h.1.1, h.1.2)
      go (err x) w' h = h

  -- From the binding of the attachments on.
  abbrev Writes :
      ℕ → Ticket → List Attachment → World vk.Store → Result TicketReply × World vk.Store → Type 0
  Writes j t as_ w (ok reply, w') =
      (reply ≡ new_reply m.db_now id r)
      × (w'.committed.replies ≡ w.db.replies)
      × Attaches (contains j (ids_of as_)) id (find_attachment j w.db.attachments)
          (find_attachment j w'.committed.attachments)
      × Touched vk c m id r t (find_ticket r.ticket_id w.db.tickets) w.db.tickets w.db.audit
          w'.committed
  Writes j t as_ w (err e, w') = w'.committed ≡ w.committed

  finished-Writes :
      (j : ℕ) (t : Ticket) (as_ : List Attachment) (w w1 : World vk.Store)
      (q : Result TicketReply × World vk.Store)
      → BindsAll j as_ id w (ok tt, w1)
      → Finishes t w.db w1 q
      → Writes j t as_ w q
  finished-Writes j t as_ w w1 (ok reply, w') h f = (f.0, f.2 ∙ h.0.2, rw f.3 (h.1), f.1)
  finished-Writes j t as_ w w1 (err e, w') h f = f ∙ h.0.0

  bound-Writes :
      (users : Option (ℕ → Option String)) (uuid_text : ℕ → String) (j : ℕ) (t : Ticket)
      (as_ : List Attachment) (w w1 : World vk.Store) (x : Result (Unit {0}))
      → BindsAll j as_ id w (x, w1)
      → Writes j t as_ w (after x (λ _. finish_reply vk c users uuid_text m id r t) w1)
  bound-Writes users uuid_text j t as_ w w1 (ok u) h =
      finished-Writes j t as_ w w1 (finish_reply vk c users uuid_text m id r t w1) h
        (finish_reply-Finishes users uuid_text t w.db w1 h.0.1 h.0.3)
  bound-Writes users uuid_text j t as_ w w1 (err e) h = h

  -- From the insertion on.
  abbrev pub Inserts :
      ℕ → Ticket → List Attachment → World vk.Store → Result TicketReply × World vk.Store → Type 0
  Inserts j t as_ w (ok reply, w') =
      (reply ≡ new_reply m.db_now id r)
      × (reply_check reply ≡ true)
      × (w'.committed.replies ≡ w.db.replies ++ reply ∷ [])
      × Attaches (contains j (ids_of as_)) id (find_attachment j w.db.attachments)
          (find_attachment j w'.committed.attachments)
      × Touched vk c m id r t (find_ticket r.ticket_id w.db.tickets) w.db.tickets w.db.audit
          w'.committed
  Inserts j t as_ w (err e, w') = w'.committed ≡ w.committed

  written-Inserts :
      (j : ℕ) (t : Ticket) (as_ : List Attachment) (w : World vk.Store)
      (q : Result TicketReply × World vk.Store)
      → reply_check (new_reply m.db_now id r) ≡ true
      → Writes j t as_
          (record w { db = record w.db { replies = w.db.replies ++ new_reply m.db_now id r ∷ [] } })
          q
      → Inserts j t as_ w q
  written-Inserts j t as_ w (ok reply, w') good h = (h.0, rw (h.0) good, rw (h.0) (h.1), h.2, h.3)
  written-Inserts j t as_ w (err e, w') good h = h

  pub inserts :
      (users : Option (ℕ → Option String)) (uuid_text : ℕ → String) (j : ℕ) (t : Ticket)
      (as_ : List Attachment) (w : World vk.Store)
      → Inserts j t as_ w (
          (insert_reply vk (new_reply m.db_now id r) >>= λ _.
          bind_all_to_reply id as_ >>= λ _. finish_reply vk c users uuid_text m id r t)
            w)
  unfolding insert_reply ◌>>=◌
  inserts users uuid_text j t as_ w =
      let w2 = record w {
        db = record w.db { replies = w.db.replies ++ new_reply m.db_now id r ∷ [] };
      } in
      elim (Bool-cases (reply_check (new_reply m.db_now id r))) [
        | inl good ↦ rw good (
            written-Inserts j t as_ w _ good (
              bound-Writes users uuid_text j t as_ w2 (bind_all_to_reply id as_ w2).1
                (bind_all_to_reply id as_ w2).0 (bind_all_to_reply-BindsAll j id as_ w2)))
        | inr bad ↦ rw bad refl
      ]
