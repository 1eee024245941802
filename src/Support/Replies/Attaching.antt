-- ===== src/Support/Replies/Attaching.antt =====
-- The two loops of create_reply over the attachments of a reply, for the attachment with one id.
use customer_portal.Prelude.{
  ℕ, Bool, true, false, ◌≡◌, ◌==◌, Option, none, some, List, [], ◌∷◌, inl, inr, refl, arith,
  contains, is_some, Option-cases, OnRow, find-modify,
}
use customer_portal.Support.Models.{
  Attachment, Result, ok, err, find_attachment, attachment_not_owned,
}
use customer_portal.Support.World.{World, ◌>>=◌, ◌>>◌, after, or_raise}
use customer_portal.Support.Attachments.{
  get_attachment, bind_to_reply, validate_for_reply, bind_all_to_reply, bind_reply_set,
  update_attachment,
}
use customer_portal.Support.Creation.Binding.{ids_of, find_attachment-id}

-- An attachment that is asked for was not bound to a reply, and is bound to this one; any other is as
-- it was.
abbrev pub Attaches : Bool → ℕ → Option Attachment → Option Attachment → Type 0
Attaches true reply_id o o' =
    OnRow (λ a. (is_some a.ticket_reply_id ≡ false) × (o' ≡ some (bind_reply_set reply_id a))) o
Attaches false reply_id o o' = o' ≡ o

-- An attachment that is asked for is the author's, and not bound to a reply.
abbrev pub IsOwned : Bool → ℕ → Option Attachment → Type 0
IsOwned true actor o = OnRow (λ a. (a.uploaded_by ≡ actor) × (is_some a.ticket_reply_id ≡ false)) o
IsOwned false actor o = Unit

module _ {Store : Type 0} where
  -- Nothing but attachments changes in what the session sees.
  abbrev pub OnlyAttachments : World Store → World Store → Type 0
  OnlyAttachments w w' =
      (w'.committed ≡ w.committed)
      × (w'.db.tickets ≡ w.db.tickets)
      × (w'.db.replies ≡ w.db.replies)
      × (w'.db.audit ≡ w.db.audit)

  abbrev BindsOne : ℕ → ℕ → ℕ → World Store → Result (Option Attachment) × World Store → Type 0
  BindsOne j id reply_id w (ok (some a), w') =
      OnlyAttachments w w'
      × Attaches (j == id) reply_id (find_attachment j w.db.attachments)
          (find_attachment j w'.db.attachments)
  BindsOne j id reply_id w (ok none, w') = w' ≡ w
  BindsOne j id reply_id w (err e, w') = ⊥

  abbrev pub BindsAll :
      ℕ → List Attachment → ℕ → World Store → Result (Unit {0}) × World Store → Type 0
  BindsAll j as_ reply_id w (ok _, w') =
      OnlyAttachments w w'
      × Attaches (contains j (ids_of as_)) reply_id (find_attachment j w.db.attachments)
          (find_attachment j w'.db.attachments)
  BindsAll j as_ reply_id w (err e, w') = w'.committed ≡ w.committed

  -- A read that changes nothing, and returns the rows with these ids.
  abbrev pub Validates :
      ℕ → ℕ → List ℕ → World Store → Result (List Attachment) × World Store → Type 0
  Validates j actor ids w (ok as_, w') =
      (w' ≡ w)
      × (ids_of as_ ≡ ids)
      × IsOwned (contains j ids) actor (find_attachment j w.db.attachments)
  Validates j actor ids w (err e, w') = w' ≡ w

  bind_to_reply-BindsOne :
      (j id reply_id : ℕ) (w : World Store) → BindsOne j id reply_id w (bind_to_reply id reply_id w)
  unfolding bind_to_reply update_attachment
  bind_to_reply-BindsOne j id reply_id w = ground (
    arith,
    find-modify (λ (a : Attachment). a.id) j id (bind_reply_set reply_id) w.db.attachments
        (λ r. refl),
  )

  pub validate_for_reply-Validates :
      (j actor : ℕ) (ids : List ℕ) (w : World Store)
      → Validates j actor ids w (validate_for_reply actor ids w)
  unfolding validate_for_reply get_attachment ◌>>=◌
  validate_for_reply-Validates j actor [] w = (refl, refl, tt)
  validate_for_reply-Validates j actor (id ∷ ids) w =
      elim (Option-cases (find_attachment id w.db.attachments)) [
        | inl e ↦ ground arith
        | inr (a, e) ↦ ground (
          arith,
          find_attachment-id id w.db.attachments a e,
          validate_for_reply-Validates j actor ids w,
        )
      ]

  BindsAll-cons :
      (j reply_id : ℕ) (a b : Attachment) (as_ : List Attachment) (w w' : World Store)
      (q : Result (Unit {0}) × World Store)
      → BindsOne j a.id reply_id w (ok (some b), w')
      → BindsAll j as_ reply_id w' q
      → BindsAll j (a ∷ as_) reply_id w q
  BindsAll-cons j reply_id a b as_ w w' (ok u, w'') one all = ground arith
  BindsAll-cons j reply_id a b as_ w w' (err e, w'') one all = ground arith

  BindsAll-after :
      (j reply_id : ℕ) (a : Attachment) (as_ : List Attachment) (w w' : World Store)
      (r : Result (Option Attachment))
      → BindsOne j a.id reply_id w (r, w')
      → BindsAll j as_ reply_id w' (bind_all_to_reply reply_id as_ w')
      → BindsAll j (a ∷ as_) reply_id w (
          after r
            (λ bound. or_raise bound attachment_not_owned >> bind_all_to_reply reply_id as_)
            w')
  unfolding ◌>>=◌
  BindsAll-after j reply_id a as_ w w' (ok (some b)) one all =
      BindsAll-cons j reply_id a b as_ w w' (bind_all_to_reply reply_id as_ w') one all
  BindsAll-after j reply_id a as_ w w' (ok none) one all = ground arith
  BindsAll-after j reply_id a as_ w w' (err e) one all = ground arith

  pub bind_all_to_reply-BindsAll :
      (j reply_id : ℕ) (as_ : List Attachment) (w : World Store)
      → BindsAll j as_ reply_id w (bind_all_to_reply reply_id as_ w)
  unfolding bind_all_to_reply ◌>>=◌
  bind_all_to_reply-BindsAll j reply_id [] w = ground arith
  bind_all_to_reply-BindsAll j reply_id (a ∷ as_) w =
      let (r, w') = bind_to_reply a.id reply_id w in
      BindsAll-after j reply_id a as_ w w' r (bind_to_reply-BindsOne j a.id reply_id w)
        (bind_all_to_reply-BindsAll j reply_id as_ w')
