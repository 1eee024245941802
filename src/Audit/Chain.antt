-- ===== src/Audit/Chain.antt =====
-- The hash chain of `audit_log`: the BEFORE INSERT trigger `audit_log_hash_chain`
-- (migrations/versions/57a978462b74_add_audit_log_and_history_view.py) and the verifier
-- (scripts/verify_audit_chain.py).
pub mod Soundness
pub mod Growth
pub mod Batch
pub mod Tampering
use text.Mathlib.Text.{◌==◌ as str_eq}
use customer_portal.Prelude.{
  ℕ, String, Bool, not, ◌&&◌, ◌||◌, Option, none, some, List, [], ◌∷◌, ◌++◌, map, ltb, ◌==◌,
  if◌then◌else◌,
}
use customer_portal.Audit.Digest.{Digest, Covered, row_hash, genesis}

-- A row of `audit_log`, without the columns that neither the trigger nor the verifier reads.
pub record AuditLog : Type 0 where
  pub id : ℕ
  pub covered : Covered
  pub previous_hash : String
  pub row_hash : String

-- `ChainRow`: a row as `_SELECT_CHAIN_SQL` returns it, its hash computed anew.
pub record ChainRow : Type 0 where
  pub id : ℕ
  pub occurred_at : ℕ
  pub event : String
  pub previous_hash : String
  pub row_hash : String
  pub expected_row_hash : String

pub data Reason : Type 0 where
  previous_hash_mismatch row_hash_mismatch : Reason

pub record ChainBreak : Type 0 where
  pub id : ℕ
  pub occurred_at : ℕ
  pub event : String
  pub reason : Reason

-- The order of `ORDER BY occurred_at ASC, id ASC`.
abbrev pub precedes : AuditLog → AuditLog → Bool
precedes a b =
    ltb a.covered.occurred_at b.covered.occurred_at
    || (a.covered.occurred_at == b.covered.occurred_at && ltb a.id b.id)

-- ORDER BY occurred_at DESC, id DESC LIMIT 1
unfoldable pub latest : List AuditLog → Option AuditLog
latest [] = none
latest (r ∷ rs) = elim (latest rs) [ none ↦ some r | some m ↦ some (if precedes m r then r else m) ]

unfoldable pub order_insert : AuditLog → List AuditLog → List AuditLog
order_insert r [] = r ∷ []
order_insert r (x ∷ xs) = if precedes r x then r ∷ x ∷ xs else x ∷ order_insert r xs

unfoldable pub order_by : List AuditLog → List AuditLog
order_by [] = []
order_by (r ∷ rs) = order_insert r (order_by rs)

module _ (d : Digest) where
  -- The trigger's seed: the hash of the most recent row, or the genesis hash of an empty table.
  unfoldable pub seed : List AuditLog → String
  seed table = elim (latest table) [ none ↦ genesis d | some r ↦ r.row_hash ]

  -- The row that the trigger makes of an INSERT.
  unfoldable pub chained : List AuditLog → ℕ → Covered → AuditLog
  chained table id c = record {
    id = id;
    covered = c;
    previous_hash = seed table;
    row_hash = row_hash d (seed table) c;
  }

  -- An INSERT into `audit_log`.
  unfoldable pub insert : ℕ → Covered → List AuditLog → List AuditLog
  insert id c table = table ++ chained table id c ∷ []

  unfoldable pub to_chain_row : AuditLog → ChainRow
  to_chain_row r = record {
    id = r.id;
    occurred_at = r.covered.occurred_at;
    event = r.covered.event;
    previous_hash = r.previous_hash;
    row_hash = r.row_hash;
    expected_row_hash = row_hash d r.previous_hash r.covered;
  }

  -- `_fetch_chain`
  unfoldable pub fetch_chain : List AuditLog → List ChainRow
  fetch_chain table = map to_chain_row (order_by table)

abbrev pub break_at : ChainRow → Reason → ChainBreak
break_at r why = record { id = r.id; occurred_at = r.occurred_at; event = r.event; reason = why }

-- The loop of `verify_chain`, with `expected_previous_hash`.
unfoldable pub verify_from : String → List ChainRow → Option ChainBreak
verify_from expected [] = none
verify_from expected (r ∷ rs) =
    if not (str_eq r.previous_hash expected)
    then some (break_at r previous_hash_mismatch)
    else if not (str_eq r.row_hash r.expected_row_hash)
    then some (break_at r row_hash_mismatch)
    else verify_from r.row_hash rs

unfoldable pub verify_chain : Digest → List ChainRow → Option ChainBreak
unfolding verify_from
verify_chain d rows = verify_from (genesis d) rows
