-- ===== src/Support/Creation/Binding.antt =====
-- What the loops over the attachments of a ticket change, and what they ensure.
use customer_portal.Prelude.{
  none, some, [], inl, inr, find-modify, Option-cases, is_not_distinct, arith, true, ◌≡◌, Option,
  List, ◌∷◌, ℕ, Bool, contains, false, refl,
}
use customer_portal.Support.Models.{
  Attachment, Result, ok, err, find_attachment, modify_attachment, attachment_not_owned,
}
use customer_portal.Support.World.{World, ◌>>=◌, after, or_raise, ◌>>◌}
use customer_portal.Support.Attachments.{
  get_attachment, bind_to_ticket, validate_for_ticket, bind_all_to_ticket, bind_ticket_set,
  update_attachment,
}

-- The row is there and is bound to the ticket.
abbrev pub is_bound_to : ℕ → Option Attachment → Bool
is_bound_to ticket_id none = false
is_bound_to ticket_id (some a) = is_not_distinct a.ticket_id (some ticket_id)

abbrev pub ids_of : List Attachment → List ℕ
ids_of [] = []
ids_of (a ∷ as_) = a.id ∷ ids_of as_

module _ {Store : Type 0} where
  abbrev pub SameButDb : World Store → World Store → Type 0
  SameButDb w w' = (w'.committed ≡ w.committed) × (w'.store ≡ w.store) × (w'.outbox ≡ w.outbox)

  -- Only attachments changed, and if attachment `j` was bound to the ticket, it still is.
  abbrev pub OnlyBinds : ℕ → ℕ → World Store → World Store → Type 0
  OnlyBinds j ticket_id w w' =
      SameButDb w w'
      × (w'.db.tickets ≡ w.db.tickets)
      × (w'.db.replies ≡ w.db.replies)
      × (w'.db.audit ≡ w.db.audit)
      × (is_bound_to ticket_id (find_attachment j w.db.attachments) ≡ true
          → is_bound_to ticket_id (find_attachment j w'.db.attachments) ≡ true)

  abbrev BindsOne : ℕ → ℕ → ℕ → World Store → Result (Option Attachment) × World Store → Type 0
  BindsOne j id ticket_id w (ok (some a), w') =
      OnlyBinds j ticket_id w w'
      × (j ≡ id → is_bound_to ticket_id (find_attachment j w'.db.attachments) ≡ true)
  BindsOne j id ticket_id w (ok none, w') = w' ≡ w
  BindsOne j id ticket_id w (err e, w') = ⊥

  abbrev pub BindsAll :
      ℕ → List Attachment → ℕ → World Store → Result (Unit {0}) × World Store → Type 0
  BindsAll j as_ ticket_id w (ok _, w') =
      OnlyBinds j ticket_id w w'
      × (contains j (ids_of as_) ≡ true
          → is_bound_to ticket_id (find_attachment j w'.db.attachments) ≡ true)
  BindsAll j as_ ticket_id w (err e, w') = SameButDb w w'

  -- A read that changes nothing, and returns the rows with these ids.
  abbrev pub Validates : List ℕ → World Store → Result (List Attachment) × World Store → Type 0
  Validates ids w (ok as_, w') = (w' ≡ w) × (ids_of as_ ≡ ids)
  Validates ids w (err e, w') = w' ≡ w

pub find_attachment-id :
    (id : ℕ) (rows : List Attachment) (a : Attachment)
    → find_attachment id rows ≡ some a
    → a.id ≡ id
find_attachment-id id [] a e = ground arith
find_attachment-id id (r ∷ rows) a e = ground (arith, find_attachment-id id rows a)

kept_bound :
    (id ticket_id j : ℕ) (rows : List Attachment)
    → is_bound_to ticket_id (find_attachment j rows) ≡ true
    → is_bound_to ticket_id
        (find_attachment j (modify_attachment id (bind_ticket_set ticket_id) rows))
      ≡ true
kept_bound id ticket_id j rows h = ground (
  arith,
  find-modify (λ (a : Attachment). a.id) j id (bind_ticket_set ticket_id) rows (λ r. refl),
)

newly_bound :
    (id ticket_id : ℕ) (rows : List Attachment) (a : Attachment)
    → find_attachment id rows ≡ some a
    → is_bound_to ticket_id
        (find_attachment id (modify_attachment id (bind_ticket_set ticket_id) rows))
      ≡ true
newly_bound id ticket_id rows a e = ground (
  arith,
  find-modify (λ (a : Attachment). a.id) id id (bind_ticket_set ticket_id) rows (λ r. refl),
)

module _ {Store : Type 0} where
  bind_to_ticket-BindsOne :
      (j id ticket_id : ℕ) (w : World Store)
      → BindsOne j id ticket_id w (bind_to_ticket id ticket_id w)
  unfolding bind_to_ticket update_attachment
  bind_to_ticket-BindsOne j id ticket_id w =
      elim (Option-cases (find_attachment id w.db.attachments)) [
        | inl e ↦ ground arith
        | inr (a, e) ↦ ground (
          arith,
          newly_bound id ticket_id w.db.attachments a e,
          kept_bound id ticket_id j w.db.attachments,
        )
      ]

  pub validate_for_ticket-Validates :
      (requester : ℕ) (ids : List ℕ) (w : World Store)
      → Validates ids w (validate_for_ticket requester ids w)
  unfolding validate_for_ticket get_attachment ◌>>=◌
  validate_for_ticket-Validates requester [] w = (refl, refl)
  validate_for_ticket-Validates requester (id ∷ ids) w =
      elim (Option-cases (find_attachment id w.db.attachments)) [
        | inl e ↦ ground arith
        | inr (a, e) ↦ ground (
          arith,
          find_attachment-id id w.db.attachments a e,
          validate_for_ticket-Validates requester ids w,
        )
      ]

  BindsAll-cons :
      (j ticket_id : ℕ) (a b : Attachment) (as_ : List Attachment) (w w' : World Store)
      (q : Result (Unit {0}) × World Store)
      → BindsOne j a.id ticket_id w (ok (some b), w')
      → BindsAll j as_ ticket_id w' q
      → BindsAll j (a ∷ as_) ticket_id w q
  BindsAll-cons j ticket_id a b as_ w w' (ok u, w'') one all = ground arith
  BindsAll-cons j ticket_id a b as_ w w' (err e, w'') one all = ground arith

  BindsAll-after :
      (j ticket_id : ℕ) (a : Attachment) (as_ : List Attachment) (w w' : World Store)
      (r : Result (Option Attachment))
      → BindsOne j a.id ticket_id w (r, w')
      → BindsAll j as_ ticket_id w' (bind_all_to_ticket ticket_id as_ w')
      → BindsAll j (a ∷ as_) ticket_id w (
          after r
            (λ bound. or_raise bound attachment_not_owned >> bind_all_to_ticket ticket_id as_)
            w')
  unfolding ◌>>=◌
  BindsAll-after j ticket_id a as_ w w' (ok (some b)) one all =
      BindsAll-cons j ticket_id a b as_ w w' (bind_all_to_ticket ticket_id as_ w') one all
  BindsAll-after j ticket_id a as_ w w' (ok none) one all = ground arith
  BindsAll-after j ticket_id a as_ w w' (err e) one all = ground arith

  pub bind_all_to_ticket-BindsAll :
      (j ticket_id : ℕ) (as_ : List Attachment) (w : World Store)
      → BindsAll j as_ ticket_id w (bind_all_to_ticket ticket_id as_ w)
  unfolding bind_all_to_ticket ◌>>=◌
  bind_all_to_ticket-BindsAll j ticket_id [] w = ground arith
  bind_all_to_ticket-BindsAll j ticket_id (a ∷ as_) w =
      let (r, w') = bind_to_ticket a.id ticket_id w in
      BindsAll-after j ticket_id a as_ w w' r (bind_to_ticket-BindsOne j a.id ticket_id w)
        (bind_all_to_ticket-BindsAll j ticket_id as_ w')
