-- ===== src/Support/Creation/Atomic.antt =====
-- The end of a create request whose idempotency key was not in use.
use customer_portal.Prelude.{
  none, some, [], inl, inr, refl, ℕ, String, ◌≡◌, ◌⊎◌, ◌++◌, ◌∷◌, contains, true, arith, not, ◌||◌,
}
use customer_portal.Valkey.{Valkey, idempotency_key, envelope, CacheKey}
use customer_portal.Support.Models.{Ticket, Result, ok, err, find_attachment, Result-cases}
use customer_portal.Support.World.{World, Moment, Collaborators, AuditEvent, ◌>>=◌, on_error}
use customer_portal.Support.Attachments.{validate_for_ticket}
use customer_portal.Support.Cache.{claim, resolve, release, record_creation, creation_retry_after}
use customer_portal.Support.Creation.{
  CreateTicket, Canonical, Fresh, new_ticket, hash_request, create_ticket, create_claimed,
  insert_claimed, insert_ticket, limit_creation, notify_created,
}
use customer_portal.Support.Creation.Binding.{
  is_bound_to, validate_for_ticket-Validates, bind_all_to_ticket-BindsAll,
}

-- `record_event` of `create_ticket`.
abbrev pub created_entry : Collaborators → Fresh → CreateTicket → AuditEvent
created_entry c f r = record {
  category = "tickets";
  event = "ticket_created";
  actor_id = r.requester_id;
  actor_role = c.actor_role r.requester_id;
  target_id = some f.id;
  outcome = some "success";
  payload = some (f.number, r.category);
}

module _ (vk : Valkey) (hash : Canonical → String) (elapse : ℕ → vk.Store → vk.Store)
    (c : Collaborators) (m : Moment) (f : Fresh) (r : CreateTicket) (j : ℕ) where
  -- The new ticket is committed with its audit entry, and attachment `j`, if asked for, is bound to it.
  abbrev pub Inserted : World vk.Store → Ticket → World vk.Store → Type 0
  Inserted w t w' =
      (t ≡ new_ticket m.db_now f r)
      × (w'.committed.tickets ≡ (m.others w.committed).tickets ++ t ∷ [])
      × (w'.committed.replies ≡ (m.others w.committed).replies)
      × (w'.committed.audit ≡ (m.others w.committed).audit ++ created_entry c f r ∷ [])
      × ((not (contains j r.attachment_ids)
            || is_bound_to f.id (find_attachment j w'.committed.attachments))
          ≡ true)

  abbrev pub NothingCommitted : World vk.Store → World vk.Store → Type 0
  NothingCommitted w w' =
      ((w'.committed ≡ w.committed) ⊎ (w'.committed ≡ m.others w.committed))
      × (w'.outbox ≡ w.outbox)

  abbrev Inserts : World vk.Store → Result Ticket × World vk.Store → Type 0
  Inserts w (ok t, w') = Inserted w t w' × (w'.outbox ≡ w.outbox)
  Inserts w (err e, w') = NothingCommitted w w'

  abbrev Limits : World vk.Store → Result (Unit {0}) × World vk.Store → Type 0
  Limits w (x, w') = (w'.committed ≡ w.committed) × (w'.db ≡ w.db) × (w'.outbox ≡ w.outbox)

  limit_creation-Limits :
      (w : World vk.Store) → Limits w (limit_creation vk hash elapse r.requester_id w)
  unfolding limit_creation record_creation creation_retry_after ◌>>=◌
  limit_creation-Limits w = ground arith

  insert_claimed-Inserts :
      (w : World vk.Store)
      → w.db ≡ w.committed
      → Inserts w (insert_claimed vk hash elapse c m f r w)
  unfolding insert_claimed insert_ticket ◌>>=◌
  insert_claimed-Inserts w same =
      let w1 = (limit_creation vk hash elapse r.requester_id w).1 in
      elim (Result-cases (validate_for_ticket r.requester_id r.attachment_ids w1).0) [
        | inl (as_, e) ↦ ground (
          arith,
          limit_creation-Limits w,
          validate_for_ticket-Validates r.requester_id r.attachment_ids w1,
          bind_all_to_ticket-BindsAll j f.id as_ (record w1 {
            db = record (m.others w1.db) {
              tickets = (m.others w1.db).tickets ++ new_ticket m.db_now f r ∷ [];
            };
            committed = m.others w1.committed;
          }),
        )
        | inr (e, p) ↦ ground (
          arith,
          limit_creation-Limits w,
          validate_for_ticket-Validates r.requester_id r.attachment_ids w1,
        )
      ]

  abbrev key : CacheKey
  key = idempotency_key r.requester_id r.key

  abbrev pub Creates : World vk.Store → Result Ticket × World vk.Store → Type 0
  Creates w (ok t, w') =
      Inserted w t w'
      × (vk.get (idempotency_key r.requester_id r.key) w'.store
          ≡ some (envelope (hash_request vk hash elapse r) (some f.id)))
  Creates w (err e, w') =
      NothingCommitted w w' × (vk.get (idempotency_key r.requester_id r.key) w'.store ≡ none)

  create_claimed-Creates :
      (w : World vk.Store)
      → w.db ≡ w.committed
      → Creates w (create_claimed vk hash elapse c m f r (hash_request vk hash elapse r) w)
  unfolding create_claimed on_error release resolve notify_created ◌>>=◌
  create_claimed-Creates w same =
      let w' = (insert_claimed vk hash elapse c m f r w).1 in
      ground (
        arith,
        insert_claimed-Inserts w same,
        vk.get-delete key w'.store,
        vk.get-set_ex key (envelope (hash_request vk hash elapse r) (some f.id)) 86400 w'.store,
      )

  -- A create request whose idempotency key is not in use ends in one of two ways. Either it answers
  -- the new ticket, and has committed, on top of what other sessions committed, exactly that
  -- ticket with one "ticket_created" audit entry, every attachment that it asked for is bound to it,
  -- and the key leads to it; or it raises, and this session has committed nothing, no mail was sent,
  -- and the key is free again.
  pub create_ticket-Creates :
      (w : World vk.Store)
      → vk.get (idempotency_key r.requester_id r.key) w.store ≡ none
      → Creates w (create_ticket vk hash elapse c m f r w)
  unfolding create_ticket claim ◌>>=◌
  create_ticket-Creates w free =
      let h = hash_request vk hash elapse r in
      let s = vk.set_ex key (envelope h none) 86400 w.store in
      ground (
        arith,
        free,
        vk.set_nx_ex-absent key (envelope h none) 86400 w.store free,
        create_claimed-Creates (record w { db = w.committed; store = s }) refl,
      )
