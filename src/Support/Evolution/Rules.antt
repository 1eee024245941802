-- ===== src/Support/Evolution/Rules.antt =====
-- The relation is kept by each statement, one rule for each way to build an action.
use mathlib.Core.Path.{subst}
use customer_portal.Prelude.{inl, inr, Bool-cases}
use mathlib.Core.List.{append-nil, append_assoc}
use customer_portal.Prelude.{
  Option, none, some, List, ◌++◌, arith, [], sym, ℕ, ◌∷◌, ◌≡◌, Bool-cases, modify, true, ◌==◌, find,
}
use customer_portal.Support.Models.{
  Ticket, Attachment, IsChecked, find_ticket, find_attachment, modify_ticket,
}
use customer_portal.Support.World.{Db}
use customer_portal.Support.Evolution.{
  TicketKept, AttachmentKept, RowKept, Extends, Evolves, satisfies_checks,
}

pub TicketKept-refl : (t : Ticket) → TicketKept t t
TicketKept-refl t = ground arith

TicketKept-trans : (s t u : Ticket) → TicketKept s t → TicketKept t u → TicketKept s u
TicketKept-trans s t u p q = ground arith

pub AttachmentKept-refl : (a : Attachment) → AttachmentKept a a
AttachmentKept-refl a = ground arith

AttachmentKept-trans :
    (a b c : Attachment) → AttachmentKept a b → AttachmentKept b c → AttachmentKept a c
AttachmentKept-trans a b c p q = ground arith

pub RowKept-refl :
    {R : Type 0} (K : R → R → Type 0) → ((r : R) → K r r) → (o : Option R) → RowKept K o o
RowKept-refl K h none = tt
RowKept-refl K h (some r) = h r

RowKept-trans :
    {R : Type 0} (K : R → R → Type 0)
    → ((r s t : R) → K r s → K s t → K r t)
    → (o p q : Option R) → RowKept K o p
    → RowKept K p q
    → RowKept K o q
RowKept-trans K h none p q a b = tt
RowKept-trans K h (some r) none q a b = absurd a
RowKept-trans K h (some r) (some s) none a b = b
RowKept-trans K h (some r) (some s) (some t) a b = h r s t a b

Extends-refl : {A : Type 0} (xs : List A) → Extends xs xs
Extends-refl xs = ([], sym (append-nil xs))

Extends-trans : {A : Type 0} (xs ys zs : List A) → Extends xs ys → Extends ys zs → Extends xs zs
Extends-trans xs ys zs (m, p) (n, q) = (m ++ n, cc (p, q, append_assoc xs m n))

pub Evolves-refl : (d : Db) → IsChecked d.tickets → Evolves d d
Evolves-refl d h = record {
  tickets = λ id. RowKept-refl TicketKept TicketKept-refl (find_ticket id d.tickets);
  attachments =
      λ id. RowKept-refl AttachmentKept AttachmentKept-refl (find_attachment id d.attachments);
  audit = Extends-refl d.audit;
  replies = Extends-refl d.replies;
  checked = h;
}

pub Evolves-trans : (a b c : Db) → Evolves a b → Evolves b c → Evolves a c
Evolves-trans a b c p q = record {
  tickets = λ id.
      RowKept-trans TicketKept TicketKept-trans (find_ticket id a.tickets)
        (find_ticket id b.tickets) (find_ticket id c.tickets) (p.tickets id) (q.tickets id);
  attachments = λ id.
      RowKept-trans AttachmentKept AttachmentKept-trans (find_attachment id a.attachments)
        (find_attachment id b.attachments) (find_attachment id c.attachments) (p.attachments id)
        (q.attachments id);
  audit = Extends-trans a.audit b.audit c.audit p.audit q.audit;
  replies = Extends-trans a.replies b.replies c.replies p.replies q.replies;
  checked = q.checked;
}

-- A table with one row changed by `f`, which keeps the key, and one with a row added at the end.
module _ {R : Type 0} (key : R → ℕ) (K : R → R → Type 0) (K-refl : (r : R) → K r r) where
  head_found :
      (k : ℕ) (x r : R) (rs : List R) → (key x == k) ≡ true → find key k (x ∷ rs) ≡ some r → r ≡ x
  head_found k x r rs p e = ground arith

  pub RowKept-modify :
      (j k : ℕ) (f : R → R)
      → ((r : R) → key (f r) ≡ key r)
      → (rs : List R) (r : R) → find key k rs ≡ some r
      → K r (f r)
      → RowKept K (find key j rs) (find key j (modify key k f rs))
  RowKept-modify j k f keys [] r e kept = tt
  RowKept-modify j k f keys (x ∷ rs) r e kept = elim (Bool-cases (key x == k)) [
    | inl p ↦ rw p (elim (Bool-cases (key x == j)) [
      | inl q ↦ rw (q, keys x, q) (subst (λ y. K y (f y)) (head_found k x r rs p e) kept)
      | inr q ↦ rw (q, keys x, q) (RowKept-refl K K-refl (find key j rs))
    ])
    | inr p ↦ rw p (elim (Bool-cases (key x == j)) [
      | inl q ↦ rw q (K-refl x)
      | inr q ↦ rw q (RowKept-modify j k f keys rs r (rw p at e) kept)
    ])
  ]

  pub RowKept-append :
      (j : ℕ) (r : R) (rs : List R) → RowKept K (find key j rs) (find key j (rs ++ r ∷ []))
  RowKept-append j r [] = tt
  RowKept-append j r (x ∷ rs) = elim (Bool-cases (key x == j)) [
    | inl e ↦ rw e (K-refl x)
    | inr e ↦ rw e (RowKept-append j r rs)
  ]

pub IsChecked-find :
    (id : ℕ) (t : Ticket) (ts : List Ticket)
    → IsChecked ts
    → find_ticket id ts ≡ some t
    → satisfies_checks t ≡ true
IsChecked-find id t [] h e = cc
IsChecked-find id t (x ∷ ts) h e = ground (arith, IsChecked-find id t ts h.1)

pub IsChecked-modify :
    (id : ℕ) (f : Ticket → Ticket) (t : Ticket) (ts : List Ticket)
    → IsChecked ts
    → find_ticket id ts ≡ some t
    → satisfies_checks (f t) ≡ true
    → IsChecked (modify_ticket id f ts)
IsChecked-modify id f t [] h e c = tt
IsChecked-modify id f t (x ∷ ts) h e c = ground (arith, IsChecked-modify id f t ts h.1)

pub IsChecked-append :
    (t : Ticket) (ts : List Ticket)
    → IsChecked ts
    → satisfies_checks t ≡ true
    → IsChecked (ts ++ t ∷ [])
IsChecked-append t [] h c = (c, tt)
IsChecked-append t (x ∷ ts) h c = (h.0, IsChecked-append t ts h.1 c)
