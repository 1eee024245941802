-- ===== src/Audit/Chain/Growth.antt =====
-- How the chain grows as rows are inserted through the trigger.
use mathlib.Core.List.{map-append}
use customer_portal.Prelude.{
  ℕ, String, ◌≡◌, refl, sym, ◌∙◌, true, none, some, List, [], ◌∷◌, ◌++◌, All, arith,
}
use customer_portal.Audit.Digest.{Digest, Covered, genesis}
use customer_portal.Audit.Chain.{
  AuditLog, ChainRow, precedes, latest, order_insert, order_by, seed, chained, insert, to_chain_row,
  fetch_chain, verify_chain,
}
use customer_portal.Audit.Chain.Soundness.{IsIntact, tail_hash, verify_from-intact}

-- Every row of the table comes before `r` in the verifier's order.
abbrev pub IsAbove : AuditLog → List AuditLog → Type 0
IsAbove r table = All (λ x. precedes x r ≡ true) table

latest-append : (t : List AuditLog) (r : AuditLog) → IsAbove r t → latest (t ++ r ∷ []) ≡ some r
unfolding latest
latest-append [] r h = refl
latest-append (x ∷ t) r h = ground (arith, latest-append t r h.1)

order_insert-append :
    (x r : AuditLog) (ys rs : List AuditLog)
    → precedes x r ≡ true
    → order_insert x (ys ++ r ∷ rs) ≡ order_insert x ys ++ r ∷ rs
unfolding order_insert
order_insert-append x r [] rs h = rw h
order_insert-append x r (y ∷ ys) rs h = ground (arith, order_insert-append x r ys rs h)

-- Rows that all come before the first of a sorted suffix are sorted on their own.
pub order_by-append :
    (t suffix : List AuditLog) (r : AuditLog) (rs : List AuditLog)
    → order_by suffix ≡ r ∷ rs
    → IsAbove r t
    → order_by (t ++ suffix) ≡ order_by t ++ r ∷ rs
unfolding order_by order_insert
order_by-append [] suffix r rs sorted h = sorted
order_by-append (x ∷ t) suffix r rs sorted h =
    rw (order_by-append t suffix r rs sorted h.1) (order_insert-append x r (order_by t) rs h.0)

module _ (d : Digest) where
  fetch_chain-append :
      (t : List AuditLog) (r : AuditLog)
      → IsAbove r t
      → fetch_chain d (t ++ r ∷ []) ≡ fetch_chain d t ++ to_chain_row d r ∷ []
  unfolding fetch_chain order_by order_insert
  fetch_chain-append t r h =
      rw (order_by-append t (r ∷ []) r [] refl h)
        (map-append (to_chain_row d) (order_by t) (r ∷ []))

  pub seed-append :
      (t : List AuditLog) (r : AuditLog) → IsAbove r t → seed d (t ++ r ∷ []) ≡ r.row_hash
  unfolding seed
  seed-append t r h = rw (latest-append t r h, seed)

  IsIntact-append :
      (h : String) (rows : List ChainRow) (r : ChainRow)
      → IsIntact h rows
      → r.previous_hash ≡ tail_hash h rows
      → r.row_hash ≡ r.expected_row_hash
      → IsIntact h (rows ++ r ∷ [])
  IsIntact-append h [] r i p q = (p, q, tt)
  IsIntact-append h (x ∷ rows) r i p q = (i.0, i.1, IsIntact-append x.row_hash rows r i.2 p q)

  tail_hash-append :
      (h : String) (rows : List ChainRow) (r : ChainRow) → tail_hash h (rows ++ r ∷ []) ≡ r.row_hash
  tail_hash-append h [] r = refl
  tail_hash-append h (x ∷ rows) r = tail_hash-append x.row_hash rows r

  -- The chain is intact, and the trigger's seed is the hash of the row that the verifier reads last.
  pub record IsChained (t : List AuditLog) : Type 0 where
    pub intact : IsIntact (genesis d) (fetch_chain d t)
    pub seeded : seed d t ≡ tail_hash (genesis d) (fetch_chain d t)

  pub IsChained-nil : IsChained []
  unfolding fetch_chain order_by seed latest
  IsChained-nil = record { intact = tt; seeded = refl }

  pub IsChained-insert :
      (id : ℕ) (c : Covered) (t : List AuditLog)
      → IsAbove (chained d t id c) t
      → IsChained t
      → IsChained (insert d id c t)
  unfolding insert chained to_chain_row
  IsChained-insert id c t above h = record {
    intact = rw (fetch_chain-append t (chained d t id c) above) (
        IsIntact-append (genesis d) (fetch_chain d t) (to_chain_row d (chained d t id c)) h.intact
          h.seeded refl);
    seeded =
        seed-append t (chained d t id c) above
        ∙ rw (fetch_chain-append t (chained d t id c) above) (
            sym
              (tail_hash-append (genesis d) (fetch_chain d t) (to_chain_row d (chained d t id c))));
  }

  -- Several INSERTs, one after the other.
  unfoldable pub insert_all : List (ℕ × Covered) → List AuditLog → List AuditLog
  insert_all [] t = t
  insert_all ((id, c) ∷ rest) t = insert_all rest (insert d id c t)

  -- Each row is inserted after all the rows that the verifier reads before it.
  abbrev pub InOrder : List (ℕ × Covered) → List AuditLog → Type 0
  InOrder [] t = Unit
  InOrder ((id, c) ∷ rest) t = IsAbove (chained d t id c) t × InOrder rest (insert d id c t)

  insert_all-IsChained :
      (rows : List (ℕ × Covered)) (t : List AuditLog)
      → InOrder rows t
      → IsChained t
      → IsChained (insert_all rows t)
  unfolding insert_all
  insert_all-IsChained [] t o h = h
  insert_all-IsChained ((id, c) ∷ rest) t o h =
      insert_all-IsChained rest (insert d id c t) o.1 (IsChained-insert id c t o.0 h)

  -- Rows inserted through the trigger into an empty log, each later in `(occurred_at, id)` than all
  -- the rows before it, are reported intact by the verifier.
  pub verify_chain-insert_all :
      (rows : List (ℕ × Covered))
      → InOrder rows []
      → verify_chain d (fetch_chain d (insert_all rows [])) ≡ none
  unfolding verify_chain
  verify_chain-insert_all rows o =
      verify_from-intact (genesis d) (fetch_chain d (insert_all rows []))
        (insert_all-IsChained rows [] o IsChained-nil).intact
