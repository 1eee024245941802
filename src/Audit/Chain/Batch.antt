-- ===== src/Audit/Chain/Batch.antt =====
-- Two rows that one transaction inserts share `occurred_at` (the column's default is `now()`, the
-- start of the transaction), and `id` is random, so the verifier may read the second one first.
use mathlib.Core.List.{map-append}
use mathlib.Core.List.{append_assoc}
use text.Mathlib.TextEquality.{eq_iff}
use customer_portal.Prelude.{
  ℕ, String, ◌≡◌, ◌≢◌, sym, ◌∙◌, true, some, List, [], ◌∷◌, ◌++◌, arith, ◌<◌,
}
use customer_portal.Audit.Digest.{Digest, Covered, row_hash, genesis}
use customer_portal.Audit.Chain.{
  AuditLog, ChainRow, precedes, order_insert, order_by, seed, chained, insert, to_chain_row,
  fetch_chain, verify_from, verify_chain, break_at, previous_hash_mismatch,
}
use customer_portal.Audit.Chain.Soundness.{tail_hash, verify_from-append}
use customer_portal.Audit.Chain.Growth.{IsAbove, IsChained, order_by-append, seed-append}

module _ (d : Digest) where
  order_by_swapped : (r s : AuditLog) → precedes s r ≡ true → order_by (r ∷ s ∷ []) ≡ s ∷ r ∷ []
  unfolding order_by order_insert
  order_by_swapped r s h = ground arith

  fetch_chain_swapped :
      (t : List AuditLog) (r s : AuditLog)
      → IsAbove s t
      → precedes s r ≡ true
      → fetch_chain d (t ++ r ∷ s ∷ [])
        ≡ fetch_chain d t ++ to_chain_row d s ∷ to_chain_row d r ∷ []
  unfolding fetch_chain
  fetch_chain_swapped t r s above h =
      rw (order_by-append t (r ∷ s ∷ []) s (r ∷ []) (order_by_swapped r s h) above)
        (map-append (to_chain_row d) (order_by t) (s ∷ r ∷ []))

  verify_from-mismatch :
      (h : String) (r : ChainRow) (rs : List ChainRow)
      → r.previous_hash ≢ h
      → verify_from h (r ∷ rs) ≡ some (break_at r previous_hash_mismatch)
  unfolding verify_from
  verify_from-mismatch h r rs ne = ground (arith, eq_iff r.previous_hash h)

  chained-precedes :
      (t u : List AuditLog) (i j : ℕ) (a b : Covered)
      → a.occurred_at ≡ b.occurred_at
      → j < i
      → precedes (chained d u j b) (chained d t i a) ≡ true
  unfolding chained
  chained-precedes t u i j a b same lt = ground arith

  -- The second row carries the hash of the first.
  previous_hash-chained :
      (t : List AuditLog) (i j : ℕ) (a b : Covered)
      → IsAbove (chained d t i a) t
      → (to_chain_row d (chained d (insert d i a t) j b)).previous_hash ≡ row_hash d (seed d t) a
  unfolding insert chained to_chain_row
  previous_hash-chained t i j a b above = seed-append d t (chained d t i a) above

  -- On a chained log two rows are inserted in one transaction, so with the same timestamp, both
  -- after all other rows, the second with the smaller id: if the hash of the first is not
  -- that of the row before it, the verifier reports a break at the second, although both rows went
  -- in through the trigger and nothing was altered.
  pub verify_chain-same_time :
      (t : List AuditLog) (i j : ℕ) (a b : Covered)
      → IsChained d t
      → a.occurred_at ≡ b.occurred_at
      → j < i
      → IsAbove (chained d t i a) t
      → IsAbove (chained d (insert d i a t) j b) t
      → row_hash d (seed d t) a ≢ seed d t
      → verify_chain d (fetch_chain d (insert d j b (insert d i a t)))
        ≡ some (record {
          id = j;
          occurred_at = b.occurred_at;
          event = b.event;
          reason = previous_hash_mismatch;
        })
  unfolding verify_chain insert to_chain_row chained
  verify_chain-same_time t i j a b h same lt above_i above_j fresh =
      let r = chained d t i a in
      let s = chained d (insert d i a t) j b in
      let start = tail_hash (genesis d) (fetch_chain d t) in
      rw
        (
          append_assoc t (r ∷ []) (s ∷ []),
          fetch_chain_swapped t r s above_j (chained-precedes t (insert d i a t) i j a b same lt),
          verify_from-append (genesis d) (fetch_chain d t)
              (to_chain_row d s ∷ to_chain_row d r ∷ []) h.intact,
        )
        (verify_from-mismatch start (to_chain_row d s) (to_chain_row d r ∷ [])
          (λ e. fresh (sym (previous_hash-chained t i j a b above_i) ∙ e ∙ sym h.seeded)))
