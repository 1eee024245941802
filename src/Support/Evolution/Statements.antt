-- ===== src/Support/Evolution/Statements.antt =====
-- The statements on tickets, replies and attachments, and the commands to the cache, keep the
-- database evolving.
use customer_portal.Valkey.{Valkey}
use customer_portal.Support.Replies.{insert_reply}
use customer_portal.Support.Creation.{insert_ticket, Canonical}
use customer_portal.Support.Repository.{
  update_ticket, get_by_id, Transition, transition_where, transition_set, unassign_where,
  assign_where, unassign_set, assign_set, update_set, assign, update, unassign, transition_status,
}
use customer_portal.Support.Attachments.{
  update_attachment, get_attachment, bind_to_ticket, bind_to_reply, bind_reply_set, bind_ticket_set,
}
use customer_portal.Support.World.{Db}
use customer_portal.Prelude.{
  none, some, inl, inr, ℕ, Bool, ◌≡◌, true, false, Option-cases, Bool-cases, arith, Option, ◌≢◌,
  refl, not, is_some, String, ◌++◌, ◌∷◌, [],
}
use customer_portal.Support.Models.{
  Ticket, Attachment, status_in, satisfies_checks, closed, TicketStatus, TicketReply, reply_check,
  find_attachment, IsChecked, find_ticket, modify_attachment, modify_ticket,
}
use customer_portal.Support.Evolution.{Evolves, TicketKept, AttachmentKept}
use customer_portal.Support.Evolution.Rules.{
  Evolves-refl, RowKept-modify, AttachmentKept-refl, TicketKept-refl, IsChecked-modify,
  IsChecked-find, RowKept-append, IsChecked-append,
}
use customer_portal.Support.Evolution.Keeps.{Keeps, Since-write}

Evolves-modify_ticket :
    (id : ℕ) (f : Ticket → Ticket) (d : Db) (t : Ticket)
    → ((t : Ticket) → (f t).id ≡ t.id)
    → IsChecked d.tickets
    → find_ticket id d.tickets ≡ some t
    → satisfies_checks (f t) ≡ true
    → TicketKept t (f t)
    → Evolves d (record d { tickets = modify_ticket id f d.tickets })
Evolves-modify_ticket id f d t key h e c kept =
    let same : Evolves d d = Evolves-refl d h in
    record {
      tickets = λ j.
          RowKept-modify (λ (t : Ticket). t.id) TicketKept TicketKept-refl j id f key d.tickets t e
            kept;
      attachments = same.attachments;
      audit = same.audit;
      replies = same.replies;
      checked = IsChecked-modify id f t d.tickets h e c;
    }

Evolves-modify_attachment :
    (id : ℕ) (f : Attachment → Attachment) (d : Db) (a : Attachment)
    → ((a : Attachment) → (f a).id ≡ a.id)
    → IsChecked d.tickets
    → find_attachment id d.attachments ≡ some a
    → AttachmentKept a (f a)
    → Evolves d (record d { attachments = modify_attachment id f d.attachments })
Evolves-modify_attachment id f d a key h e kept =
    let same : Evolves d d = Evolves-refl d h in
    record {
      tickets = same.tickets;
      attachments = λ j.
          RowKept-modify (λ (a : Attachment). a.id) AttachmentKept AttachmentKept-refl j id f key
            d.attachments a e kept;
      audit = same.audit;
      replies = same.replies;
      checked = h;
    }

module _ {start : Db} {Store : Type 0} where
  -- An UPDATE of a ticket, if its SET clause keeps a row that its WHERE clause lets through.
  pub Keeps-update_ticket :
      (id : ℕ) (where_ : Ticket → Bool) (f : Ticket → Ticket)
      → ((t : Ticket) → (f t).id ≡ t.id)
      → ((t : Ticket)
          → satisfies_checks t ≡ true
          → where_ t ≡ true
          → satisfies_checks (f t) ≡ true
          → TicketKept t (f t))
      → Keeps start (update_ticket {Store = Store} id where_ f)
  unfolding update_ticket
  Keeps-update_ticket id where_ f key kept = record {
    at = λ w h. elim (Option-cases (find_ticket id w.db.tickets)) [
      | inl e ↦ rw (e, update_ticket) h
      | inr (t, e) ↦
          rw (e, update_ticket)
            (elim (Bool-cases (where_ t)) [
              | inr q ↦ rw q h
              | inl q ↦ rw q (elim (Bool-cases (satisfies_checks (f t))) [
                | inr c ↦ rw c h
                | inl c ↦ rw c (
                    Since-write w (record w.db { tickets = modify_ticket id f w.db.tickets }) h
                      (Evolves-modify_ticket id f w.db t key h.seen.checked e c
                        (kept t (IsChecked-find id t w.db.tickets h.seen.checked e) q c)))
              ])
            ])
    ];
  }

  pub Keeps-update_attachment :
      (id : ℕ) (where_ : Attachment → Bool) (f : Attachment → Attachment)
      → ((a : Attachment) → (f a).id ≡ a.id)
      → ((a : Attachment) → where_ a ≡ true → AttachmentKept a (f a))
      → Keeps start (update_attachment {Store = Store} id where_ f)
  unfolding update_attachment
  Keeps-update_attachment id where_ f key kept = record {
    at = λ w h. elim (Option-cases (find_attachment id w.db.attachments)) [
      | inl e ↦ rw (e, update_attachment) h
      | inr (a, e) ↦
          rw (e, update_attachment)
            (elim (Bool-cases (where_ a)) [
              | inr q ↦ rw q h
              | inl q ↦ rw q (
                  Since-write w
                    (record w.db { attachments = modify_attachment id f w.db.attachments }) h
                    (Evolves-modify_attachment id f w.db a key h.seen.checked e (kept a q)))
            ])
    ];
  }

  pub Keeps-get_by_id : (id : ℕ) → Keeps start (get_by_id {Store = Store} id)
  unfolding get_by_id
  Keeps-get_by_id id = record { at = λ w h. h }

  pub Keeps-get_attachment : (id : ℕ) → Keeps start (get_attachment {Store = Store} id)
  unfolding get_attachment
  Keeps-get_attachment id = record { at = λ w h. h }

transition_kept :
    (now : ℕ) (v : Transition) (t : Ticket)
    → status_in closed v.expected_statuses ≡ false
    → transition_where now v t ≡ true
    → TicketKept t (transition_set now v t)
transition_kept now v t open_only q = ground arith

assign_kept :
    (expected : Option ℕ) (new : ℕ) (t : Ticket)
    → assign_where expected t ≡ true
    → TicketKept t (assign_set new t)
assign_kept expected new t q = ground arith

unassign_kept : (t : Ticket) → unassign_where t ≡ true → TicketKept t (unassign_set t)
unassign_kept t q = ground arith

-- A status that is not "closed" cannot be written over a closed row: its CHECK constraint fails.
update_kept :
    (now : ℕ) (s : Option TicketStatus) (f : Option ℕ) (t : Ticket)
    → s ≢ some closed
    → satisfies_checks t ≡ true
    → satisfies_checks (update_set now s f t) ≡ true
    → TicketKept t (update_set now s f t)
update_kept now s f t not_closed before_ after_ = ground arith

module _ {start : Db} {Store : Type 0} where
  pub Keeps-transition_status :
      (now id : ℕ) (v : Transition)
      → status_in closed v.expected_statuses ≡ false
      → Keeps start (transition_status {Store = Store} now id v)
  unfolding transition_status
  Keeps-transition_status now id v open_only =
      Keeps-update_ticket id (transition_where now v) (transition_set now v) (λ t. refl)
        (λ t _ q _. transition_kept now v t open_only q)

  pub Keeps-update :
      (now id : ℕ) (s : Option TicketStatus) (f : Option ℕ)
      → s ≢ some closed
      → Keeps start (update {Store = Store} now id s f)
  unfolding update
  Keeps-update now id none none h = Keeps-get_by_id id
  Keeps-update now id s f h =
      Keeps-update_ticket id (λ _. true) (update_set now s f) (λ t. refl)
        (λ t c _ c'. update_kept now s f t h c c')

  pub Keeps-assign :
      (id new : ℕ) (expected : Option ℕ) → Keeps start (assign {Store = Store} id new expected)
  unfolding assign
  Keeps-assign id new expected =
      Keeps-update_ticket id (assign_where expected) (assign_set new) (λ t. refl)
        (λ t _ q _. assign_kept expected new t q)

  pub Keeps-unassign : (id : ℕ) → Keeps start (unassign {Store = Store} id)
  unfolding unassign
  Keeps-unassign id =
      Keeps-update_ticket id unassign_where unassign_set (λ t. refl) (λ t _ q _. unassign_kept t q)

  pub Keeps-bind_to_ticket :
      (id ticket : ℕ) → Keeps start (bind_to_ticket {Store = Store} id ticket)
  unfolding bind_to_ticket
  Keeps-bind_to_ticket id ticket =
      Keeps-update_attachment id (λ a. not (is_some a.ticket_id)) (bind_ticket_set ticket)
        (λ a. refl) (λ a q. ground arith)

  pub Keeps-bind_to_reply : (id reply : ℕ) → Keeps start (bind_to_reply {Store = Store} id reply)
  unfolding bind_to_reply
  Keeps-bind_to_reply id reply =
      Keeps-update_attachment id (λ a. not (is_some a.ticket_reply_id)) (bind_reply_set reply)
        (λ a. refl) (λ a q. ground arith)

module _ {start : Db} where
  pub Keeps-insert_reply : (vk : Valkey) (r : TicketReply) → Keeps start (insert_reply vk r)
  unfolding insert_reply
  Keeps-insert_reply vk r = record {
    at = λ w h. elim (Bool-cases (reply_check r)) [
      | inr e ↦ rw (e, insert_reply) h
      | inl e ↦
          rw (e, insert_reply)
            (let same : Evolves w.db w.db = Evolves-refl w.db h.seen.checked in
              Since-write w (record w.db { replies = w.db.replies ++ r ∷ [] }) h
                (record {
                  tickets = same.tickets;
                  attachments = same.attachments;
                  audit = same.audit;
                  replies = (r ∷ [], refl);
                  checked = same.checked;
                }))
    ];
  }

  pub Keeps-insert_ticket :
      (vk : Valkey) (hash : Canonical → String) (elapse : ℕ → vk.Store → vk.Store) (t : Ticket)
      → satisfies_checks t ≡ true
      → Keeps start (insert_ticket vk hash elapse t)
  unfolding insert_ticket
  Keeps-insert_ticket vk hash elapse t c = record {
    at = λ w h.
        let same : Evolves w.db w.db = Evolves-refl w.db h.seen.checked in
        Since-write w (record w.db { tickets = w.db.tickets ++ t ∷ [] }) h
          (record {
            tickets = λ j.
                RowKept-append (λ (t : Ticket). t.id) TicketKept TicketKept-refl j t w.db.tickets;
            attachments = same.attachments;
            audit = same.audit;
            replies = same.replies;
            checked = IsChecked-append t w.db.tickets same.checked c;
          });
  }
