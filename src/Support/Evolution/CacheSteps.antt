-- ===== src/Support/Evolution/CacheSteps.antt =====
-- Commands to the cache change nothing in the database, and the loops over attachments only bind.
use customer_portal.Prelude.{[]}
use customer_portal.Support.Evolution.Statements.{
  Keeps-get_attachment, Keeps-bind_to_ticket, Keeps-bind_to_reply,
}
use customer_portal.Support.Models.{Attachment, attachment_not_owned}
use customer_portal.Valkey.{Valkey}
use customer_portal.Support.Attachments.{
  validate_for_ticket, validate_for_reply, bind_all_to_ticket, bind_all_to_reply, bind_to_ticket,
  get_attachment, bind_to_reply,
}
use customer_portal.Support.World.{Db, or_raise, raise_if}
use customer_portal.Prelude.{ℕ, List, String, ◌∷◌}
use customer_portal.Support.Cache.{
  claim, get_envelope, resolve, release, record_creation, creation_retry_after, record_reply,
  reply_retry_after,
}
use customer_portal.Support.Evolution.Keeps.{
  Keeps, Keeps-pure, Keeps-raise, Keeps-or_raise, Keeps-raise_if, Keeps-bind, Keeps-if,
}

module _ {start : Db} (vk : Valkey) where
  pub Keeps-claim : (user : ℕ) (key hash : String) (n : ℕ) → Keeps start (claim vk user key hash n)
  unfolding claim
  Keeps-claim user key hash n = record { at = λ w h. record { seen = h.seen; kept = h.kept } }

  pub Keeps-get_envelope : (user : ℕ) (key : String) → Keeps start (get_envelope vk user key)
  unfolding get_envelope
  Keeps-get_envelope user key = record { at = λ w h. h }

  pub Keeps-resolve :
      (user : ℕ) (key hash : String) (t n : ℕ) → Keeps start (resolve vk user key hash t n)
  unfolding resolve
  Keeps-resolve user key hash t n = record { at = λ w h. record { seen = h.seen; kept = h.kept } }

  pub Keeps-release : (user : ℕ) (key : String) → Keeps start (release vk user key)
  unfolding release
  Keeps-release user key = record { at = λ w h. record { seen = h.seen; kept = h.kept } }

  pub Keeps-record_creation : (user n : ℕ) → Keeps start (record_creation vk user n)
  unfolding record_creation
  Keeps-record_creation user n = record { at = λ w h. record { seen = h.seen; kept = h.kept } }

  pub Keeps-creation_retry_after : (user : ℕ) → Keeps start (creation_retry_after vk user)
  unfolding creation_retry_after
  Keeps-creation_retry_after user = record { at = λ w h. h }

  pub Keeps-record_reply : (user n : ℕ) → Keeps start (record_reply vk user n)
  unfolding record_reply
  Keeps-record_reply user n = record { at = λ w h. record { seen = h.seen; kept = h.kept } }

  pub Keeps-reply_retry_after : (user : ℕ) → Keeps start (reply_retry_after vk user)
  unfolding reply_retry_after
  Keeps-reply_retry_after user = record { at = λ w h. h }

ruleset step_rules = (
  Keeps-pure, Keeps-raise, Keeps-or_raise, Keeps-raise_if, Keeps-bind, Keeps-if,
  Keeps-get_attachment, Keeps-bind_to_ticket, Keeps-bind_to_reply,
)

module _ {start : Db} {Store : Type 0} where
  pub Keeps-validate_for_ticket :
      (user : ℕ) (ids : List ℕ) → Keeps start (validate_for_ticket {Store = Store} user ids)
  unfolding validate_for_ticket
  Keeps-validate_for_ticket user [] = Keeps-pure []
  Keeps-validate_for_ticket user (id ∷ ids) =
      Keeps-bind (get_attachment id) _ (Keeps-get_attachment id) λ found.
        Keeps-bind (or_raise found attachment_not_owned) _ (search step_rules) λ a.
          Keeps-bind (raise_if _ attachment_not_owned) _ (search step_rules) λ _.
            Keeps-bind (validate_for_ticket user ids) _ (Keeps-validate_for_ticket user ids)
              λ rest. Keeps-pure (a ∷ rest)

  pub Keeps-validate_for_reply :
      (user : ℕ) (ids : List ℕ) → Keeps start (validate_for_reply {Store = Store} user ids)
  unfolding validate_for_reply
  Keeps-validate_for_reply user [] = Keeps-pure []
  Keeps-validate_for_reply user (id ∷ ids) =
      Keeps-bind (get_attachment id) _ (Keeps-get_attachment id) λ found.
        Keeps-bind (or_raise found attachment_not_owned) _ (search step_rules) λ a.
          Keeps-bind (raise_if _ attachment_not_owned) _ (search step_rules) λ _.
            Keeps-bind (validate_for_reply user ids) _ (Keeps-validate_for_reply user ids)
              λ rest. Keeps-pure (a ∷ rest)

  pub Keeps-bind_all_to_ticket :
      (id : ℕ) (attachments : List Attachment)
      → Keeps start (bind_all_to_ticket {Store = Store} id attachments)
  unfolding bind_all_to_ticket
  Keeps-bind_all_to_ticket id [] = Keeps-pure tt
  Keeps-bind_all_to_ticket id (a ∷ attachments) =
      Keeps-bind (bind_to_ticket a.id id) _ (Keeps-bind_to_ticket a.id id) λ bound.
        Keeps-bind (or_raise bound attachment_not_owned) _ (search step_rules)
          λ _. Keeps-bind_all_to_ticket id attachments

  pub Keeps-bind_all_to_reply :
      (id : ℕ) (attachments : List Attachment)
      → Keeps start (bind_all_to_reply {Store = Store} id attachments)
  unfolding bind_all_to_reply
  Keeps-bind_all_to_reply id [] = Keeps-pure tt
  Keeps-bind_all_to_reply id (a ∷ attachments) =
      Keeps-bind (bind_to_reply a.id id) _ (Keeps-bind_to_reply a.id id) λ bound.
        Keeps-bind (or_raise bound attachment_not_owned) _ (search step_rules)
          λ _. Keeps-bind_all_to_reply id attachments
