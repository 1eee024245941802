-- ===== src/Audit/Chain/Tampering.antt =====
-- What the verifier makes of rows that were altered or deleted behind the trigger's back.
use mathlib.Core.List.{map-append}
use text.Mathlib.TextEquality.{eq_iff}
use customer_portal.Prelude.{
  String, ◌≡◌, ◌≢◌, sym, ◌∙◌, none, some, List, [], ◌∷◌, ◌++◌, map, arith,
}
use customer_portal.Audit.Digest.{Digest, Covered, row_hash, genesis}
use customer_portal.Audit.Chain.{
  AuditLog, ChainRow, to_chain_row, verify_from, verify_chain, break_at, previous_hash_mismatch,
  row_hash_mismatch,
}
use customer_portal.Audit.Chain.Soundness.{
  IsIntact, tail_hash, verify_from-intact, verify_from-append,
}

IsIntact-prefix :
    (h : String) (pre post : List ChainRow) → IsIntact h (pre ++ post) → IsIntact h pre
IsIntact-prefix h [] post i = tt
IsIntact-prefix h (r ∷ pre) post i = (i.0, i.1, IsIntact-prefix r.row_hash pre post i.2)

IsIntact-suffix :
    (h : String) (pre post : List ChainRow)
    → IsIntact h (pre ++ post)
    → IsIntact (tail_hash h pre) post
IsIntact-suffix h [] post i = i
IsIntact-suffix h (r ∷ pre) post i = IsIntact-suffix r.row_hash pre post i.2

verify_from-altered :
    (h : String) (r : ChainRow) (rs : List ChainRow)
    → r.previous_hash ≡ h
    → r.row_hash ≢ r.expected_row_hash
    → verify_from h (r ∷ rs) ≡ some (break_at r row_hash_mismatch)
unfolding verify_from
verify_from-altered h r rs p ne =
    ground (arith, eq_iff r.previous_hash h, eq_iff r.row_hash r.expected_row_hash)

verify_from-skipped :
    (h : String) (r : ChainRow) (rs : List ChainRow)
    → r.previous_hash ≢ h
    → verify_from h (r ∷ rs) ≡ some (break_at r previous_hash_mismatch)
unfolding verify_from
verify_from-skipped h r rs ne = ground (arith, eq_iff r.previous_hash h)

module _ (d : Digest) where
  -- In an intact log the covered fields of one row are altered to `c` and the row keeps its place,
  -- its id and its two stored hashes. If the hash of the altered fields differs from the hash of the
  -- old ones, the verifier reports a `row_hash_mismatch` at exactly that row.
  pub verify_chain-altered :
      (before after : List AuditLog) (r : AuditLog) (c : Covered)
      → IsIntact (genesis d) (map (to_chain_row d) (before ++ r ∷ after))
      → row_hash d r.previous_hash c ≢ row_hash d r.previous_hash r.covered
      → verify_chain d (map (to_chain_row d) (before ++ record r { covered = c } ∷ after))
        ≡ some (break_at (to_chain_row d (record r { covered = c })) row_hash_mismatch)
  unfolding verify_chain to_chain_row
  verify_chain-altered before after r c i ne =
      let f = to_chain_row d in
      let whole = rw (map-append f before (r ∷ after)) at i in
      let here = IsIntact-suffix (genesis d) (map f before) (map f (r ∷ after)) whole in
      rw
        (
          map-append f before (record r { covered = c } ∷ after),
          verify_from-append (genesis d) (map f before) (map f (record r { covered = c } ∷ after))
              (IsIntact-prefix (genesis d) (map f before) (map f (r ∷ after)) whole),
        )
        (verify_from-altered (tail_hash (genesis d) (map f before)) (f (record r { covered = c }))
          (map f after) here.0 (λ e. ne (sym e ∙ here.1)))

  -- One row is deleted from an intact log, and a row follows it. Unless the deleted row had the hash of
  -- the row before it, the verifier reports a `previous_hash_mismatch` at the row that follows.
  verify_chain-deleted :
      (before after : List ChainRow) (r s : ChainRow)
      → IsIntact (genesis d) (before ++ r ∷ s ∷ after)
      → r.row_hash ≢ tail_hash (genesis d) before
      → verify_chain d (before ++ s ∷ after) ≡ some (break_at s previous_hash_mismatch)
  unfolding verify_chain
  verify_chain-deleted before after r s i ne =
      let here = IsIntact-suffix (genesis d) before (r ∷ s ∷ after) i in
      rw
        (verify_from-append (genesis d) before (s ∷ after)
          (IsIntact-prefix (genesis d) before (r ∷ s ∷ after) i))
        (verify_from-skipped (tail_hash (genesis d) before) s after (λ e. ne (sym here.2.0 ∙ e)))

  -- Any number of rows is deleted from the end of an intact log: the verifier still reports it intact.
  verify_chain-truncated :
      (before after : List ChainRow)
      → IsIntact (genesis d) (before ++ after)
      → verify_chain d before ≡ none
  unfolding verify_chain
  verify_chain-truncated before after i =
      verify_from-intact (genesis d) before (IsIntact-prefix (genesis d) before after i)
