-- ===== src/Support/Creation/Replay.antt =====
-- A create request whose idempotency key is in use.
use mathlib.Core.HLevel.{hedberg}
use mathlib.Core.List.{Perm, Permᴰ, is_set}
use mathlib.Core.Logic.{∥∥₁_elim}
use native.Mathlib.Decide.{ℕ_discrete}
use text.Mathlib.TextEquality.{eq_iff}
use customer_portal.Prelude.{
  none, some, [], ◌⊎◌, refl, ℕ, String, ◌≡◌, ◌≢◌, ◌∙◌, ap, ◌∷◌, List, false, arith, Option,
}
use customer_portal.Valkey.{Valkey, idempotency_key, envelope}
use customer_portal.Support.Models.{
  Ticket, Result, ok, err, find_ticket, server_error, idempotency_key_reuse,
}
use customer_portal.Support.World.{World, Moment, Collaborators, ◌>>=◌}
use customer_portal.Support.Lifecycle.{is_deactivated}
use customer_portal.Support.Repository.{get_by_id}
use customer_portal.Support.Cache.{claim, get_envelope}
use customer_portal.Support.Creation.{
  CreateTicket, Canonical, Fresh, hash_request, sorted, insert_sorted, create_ticket, replay,
  resolve_idempotency_replay, poll, resolved_or,
}

insert_sorted_comm :
    (a b : ℕ) (l : List ℕ)
    → insert_sorted a (insert_sorted b l) ≡ insert_sorted b (insert_sorted a l)
unfolding insert_sorted
insert_sorted_comm a b [] = ground arith
insert_sorted_comm a b (c ∷ l) = ground (arith, insert_sorted_comm a b l)

sorted-Permᴰ : (xs ys : List ℕ) → Permᴰ xs ys → sorted xs ≡ sorted ys
unfolding sorted
sorted-Permᴰ _ _ Permᴰ.nil = refl
sorted-Permᴰ _ _ (Permᴰ.cons {a = a} {b = b} {l₁ = xs} {l₂ = ys} e d) =
    ap (λ z. insert_sorted z (sorted xs)) e ∙ ap (insert_sorted b) (sorted-Permᴰ xs ys d)
sorted-Permᴰ _ _ (Permᴰ.swap {a = a} {b = b} {a' = a'} {b' = b'} {l = l} e e') =
    insert_sorted_comm a b (sorted l)
    ∙ ap (λ z. insert_sorted z (insert_sorted a (sorted l))) e'
    ∙ ap (λ z. insert_sorted a' (insert_sorted z (sorted l))) e
sorted-Permᴰ _ _ (Permᴰ.trans {l₁ = xs} {l₂ = ys} {l₃ = zs} p q) =
    sorted-Permᴰ xs ys p ∙ sorted-Permᴰ ys zs q

sorted-Perm : (xs ys : List ℕ) → Perm xs ys → sorted xs ≡ sorted ys
sorted-Perm xs ys p =
    ∥∥₁_elim p (is_set (hedberg ℕ_discrete) (sorted xs) (sorted ys)) (sorted-Permᴰ xs ys)

-- What an existing ticket answers.
abbrev pub found_or_error : Option Ticket → Result Ticket
found_or_error none = err server_error
found_or_error (some t) = ok t

module _ (vk : Valkey) (hash : Canonical → String) (elapse : ℕ → vk.Store → vk.Store)
    (c : Collaborators) (m : Moment) (f : Fresh) (r : CreateTicket) (w : World vk.Store) where
  -- A request whose key leads to a ticket, by a user who is not deactivated, answers that ticket, as
  -- other sessions have left it, if the key was used for a request with the same hash, and
  -- `IDEMPOTENCY_KEY_REUSE` if the hash was another. In both cases nothing is written to the database
  -- or the cache, and no mail is sent.
  pub create_ticket-replayed :
      (h : String) (id : ℕ)
      → is_deactivated (c.account_status r.requester_id) ≡ false
      → vk.get (idempotency_key r.requester_id r.key) w.store ≡ some (envelope h (some id))
      → ((h ≡ hash_request vk hash elapse r)
          × (create_ticket vk hash elapse c m f r w ≡ (
            found_or_error (find_ticket id (m.others w.committed).tickets),
            record w { db = m.others w.committed; committed = m.others w.committed },
          )))
        ⊎ ((h ≢ hash_request vk hash elapse r)
            × (create_ticket vk hash elapse c m f r w
                ≡ (err idempotency_key_reuse, record w { db = w.committed })))
  unfolding create_ticket claim replay resolve_idempotency_replay get_envelope poll resolved_or
      get_by_id ◌>>=◌
  create_ticket-replayed h id active used = ground (
    arith,
    used,
    vk.set_nx_ex-present (idempotency_key r.requester_id r.key)
        (envelope (hash_request vk hash elapse r) none) (envelope h (some id)) 86400 w.store used,
    eq_iff h (hash_request vk hash elapse r),
  )

-- The same request with its attachments in another order.
abbrev pub reordered : CreateTicket → List ℕ → CreateTicket
reordered r ids = record r { attachment_ids = ids }

pub hash_request-Perm :
    (vk : Valkey) (hash : Canonical → String) (elapse : ℕ → vk.Store → vk.Store) (r : CreateTicket)
    (ids : List ℕ)
    → Perm r.attachment_ids ids
    → hash_request vk hash elapse r ≡ hash_request vk hash elapse (reordered r ids)
unfolding hash_request
hash_request-Perm vk hash elapse r ids p = rw (sorted-Perm r.attachment_ids ids p) refl
