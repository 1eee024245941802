-- ===== src/Support/Attachments.antt =====
-- `AttachmentRepository` of app/modules/support/repository.py, and the two loops of service.py that
-- check and bind the attachments of a request.
use customer_portal.Prelude.{
  ℕ, Bool, not, ◌&&◌, ◌||◌, Option, none, some, List, [], ◌∷◌, is_some, keep, contains, ltb, ◌==◌,
  if◌then◌else◌,
}
use customer_portal.Support.Models.{
  Attachment, attachment_not_owned, ok, find_attachment, modify_attachment,
}
use customer_portal.Support.World.{Action, ◌>>=◌, ◌>>◌, pure, or_raise, raise_if}

abbrev pub bind_ticket_set : ℕ → Attachment → Attachment
bind_ticket_set ticket_id a = record a { ticket_id = some ticket_id }

abbrev pub bind_reply_set : ℕ → Attachment → Attachment
bind_reply_set reply_id a = record a { ticket_reply_id = some reply_id }

module _ {Store : Type 0} where
  unfoldable pub get_attachment : ℕ → Action Store (Option Attachment)
  get_attachment id w = (ok (find_attachment id w.db.attachments), w)

  -- UPDATE attachments SET … WHERE id = … AND … RETURNING *
  unfoldable pub update_attachment :
      ℕ → (Attachment → Bool) → (Attachment → Attachment) → Action Store (Option Attachment)
  update_attachment id where_ set_ w = elim (find_attachment id w.db.attachments) [
    | none ↦ (ok none, w)
    | some a ↦
        if where_ a
        then (
          ok (some (set_ a)),
          record w {
            db = record w.db { attachments = modify_attachment id set_ w.db.attachments };
          },
        )
        else (ok none, w)
  ]

  unfoldable pub bind_to_ticket : ℕ → ℕ → Action Store (Option Attachment)
  unfolding update_attachment
  bind_to_ticket id ticket_id =
      update_attachment id (λ a. not (is_some a.ticket_id)) (bind_ticket_set ticket_id)

  unfoldable pub bind_to_reply : ℕ → ℕ → Action Store (Option Attachment)
  unfolding update_attachment
  bind_to_reply id reply_id =
      update_attachment id (λ a. not (is_some a.ticket_reply_id)) (bind_reply_set reply_id)

  -- The loop of `create_ticket` that collects `validated_attachments`.
  unfoldable pub validate_for_ticket : ℕ → List ℕ → Action Store (List Attachment)
  validate_for_ticket requester [] = pure []
  validate_for_ticket requester (id ∷ ids) = do
    found ← get_attachment id
    a ← or_raise found attachment_not_owned
    raise_if (not (a.uploaded_by == requester) || is_some a.ticket_id) attachment_not_owned
    validated ← validate_for_ticket requester ids
    pure (a ∷ validated)

  -- The same loop of `create_reply`.
  unfoldable pub validate_for_reply : ℕ → List ℕ → Action Store (List Attachment)
  validate_for_reply actor [] = pure []
  validate_for_reply actor (id ∷ ids) = do
    found ← get_attachment id
    a ← or_raise found attachment_not_owned
    raise_if (not (a.uploaded_by == actor) || is_some a.ticket_reply_id) attachment_not_owned
    validated ← validate_for_reply actor ids
    pure (a ∷ validated)

  -- The loops that bind them; a lost race is `AttachmentNotOwnedError` too.
  unfoldable pub bind_all_to_ticket : ℕ → List Attachment → Action Store (Unit {0})
  bind_all_to_ticket ticket_id [] = pure tt
  bind_all_to_ticket ticket_id (a ∷ attachments) = do
    bound ← bind_to_ticket a.id ticket_id
    or_raise bound attachment_not_owned
    bind_all_to_ticket ticket_id attachments

  unfoldable pub bind_all_to_reply : ℕ → List Attachment → Action Store (Unit {0})
  bind_all_to_reply reply_id [] = pure tt
  bind_all_to_reply reply_id (a ∷ attachments) = do
    bound ← bind_to_reply a.id reply_id
    or_raise bound attachment_not_owned
    bind_all_to_reply reply_id attachments

-- `find_unbound_older_than`
abbrev pub is_unbound_older_than : ℕ → Attachment → Bool
is_unbound_older_than cutoff a = not (is_some a.ticket_id) && ltb a.created_at cutoff

unfoldable pub find_unbound_older_than : ℕ → List Attachment → List Attachment
find_unbound_older_than cutoff rows = keep (is_unbound_older_than cutoff) rows

-- `purge`: DELETE FROM attachments WHERE id IN (…)
unfoldable pub purge : List ℕ → List Attachment → List Attachment
purge ids rows = keep (λ (a : Attachment). not (contains a.id ids)) rows
