-- ===== src/Audit/Chain/Soundness.antt =====
-- What the verdict of `verify_chain` means.
use text.Mathlib.Text.{◌==◌ as str_eq}
use text.Mathlib.TextEquality.{eq_iff}
use customer_portal.Prelude.{
  String, ◌≡◌, refl, ◌≢◌, inl, inr, ap, Option, none, some, List, [], ◌∷◌, ◌++◌, arith, Bool-cases,
}
use customer_portal.Audit.Digest.{Digest, genesis}
use customer_portal.Audit.Chain.{
  ChainRow, ChainBreak, Reason, previous_hash_mismatch, row_hash_mismatch, break_at, verify_from,
  verify_chain,
}

-- Each row carries the hash of the row before it, and its own hash is the one computed anew.
abbrev pub IsIntact : String → List ChainRow → Type 0
IsIntact previous [] = Unit
IsIntact previous (r ∷ rs) =
    (r.previous_hash ≡ previous) × (r.row_hash ≡ r.expected_row_hash) × IsIntact r.row_hash rs

-- The hash that the row after these must carry.
abbrev pub tail_hash : String → List ChainRow → String
tail_hash previous [] = previous
tail_hash previous (r ∷ rs) = tail_hash r.row_hash rs

-- How a row breaks a chain that is intact up to the hash `previous`.
abbrev pub Breaks : Reason → String → ChainRow → Type 0
Breaks previous_hash_mismatch previous r = r.previous_hash ≢ previous
Breaks row_hash_mismatch previous r =
    (r.previous_hash ≡ previous) × (r.row_hash ≢ r.expected_row_hash)

pub verify_from-intact :
    (h : String) (rows : List ChainRow) → IsIntact h rows → verify_from h rows ≡ none
unfolding verify_from
verify_from-intact h [] i = refl
verify_from-intact h (r ∷ rs) i = ground (
  arith,
  eq_iff r.previous_hash h,
  eq_iff r.row_hash r.expected_row_hash,
  verify_from-intact r.row_hash rs i.2,
)

pub verify_from-append :
    (h : String) (rows more : List ChainRow)
    → IsIntact h rows
    → verify_from h (rows ++ more) ≡ verify_from (tail_hash h rows) more
unfolding verify_from
verify_from-append h [] more i = refl
verify_from-append h (r ∷ rs) more i = ground (
  arith,
  eq_iff r.previous_hash h,
  eq_iff r.row_hash r.expected_row_hash,
  verify_from-append r.row_hash rs more i.2,
)

-- `b` names the first row of `rows` that breaks the chain, and how.
pub record FirstBreak (start : String) (rows : List ChainRow) (b : ChainBreak) : Type 0 where
  pub before : List ChainRow
  pub row : ChainRow
  pub after : List ChainRow
  pub splits : rows ≡ before ++ row ∷ after
  pub intact_before : IsIntact start before
  pub breaks : Breaks b.reason (tail_hash start before) row
  pub named : b ≡ break_at row b.reason

abbrev pub Verdict : String → List ChainRow → Option ChainBreak → Type 0
Verdict start rows none = IsIntact start rows
Verdict start rows (some b) = FirstBreak start rows b

-- A break in the rows after an intact row is the same break of the whole.
FirstBreak-cons :
    (h : String) (r : ChainRow) (rs : List ChainRow) (b : ChainBreak)
    → r.previous_hash ≡ h
    → r.row_hash ≡ r.expected_row_hash
    → FirstBreak r.row_hash rs b
    → FirstBreak h (r ∷ rs) b
FirstBreak-cons h r rs b p q f = record {
  before = r ∷ f.before;
  row = f.row;
  after = f.after;
  splits = ap (λ l. r ∷ l) f.splits;
  intact_before = (p, q, f.intact_before);
  breaks = f.breaks;
  named = f.named;
}

Verdict-cons :
    (h : String) (r : ChainRow) (rs : List ChainRow) (o : Option ChainBreak)
    → r.previous_hash ≡ h
    → r.row_hash ≡ r.expected_row_hash
    → Verdict r.row_hash rs o
    → Verdict h (r ∷ rs) o
Verdict-cons h r rs none p q v = (p, q, v)
Verdict-cons h r rs (some b) p q v = FirstBreak-cons h r rs b p q v

FirstBreak-head :
    (h : String) (r : ChainRow) (rs : List ChainRow) (why : Reason)
    → Breaks why h r
    → FirstBreak h (r ∷ rs) (break_at r why)
FirstBreak-head h r rs why b = record {
  before = [];
  row = r;
  after = rs;
  splits = refl;
  intact_before = tt;
  breaks = b;
  named = refl;
}

verify_from-Verdict : (h : String) (rows : List ChainRow) → Verdict h rows (verify_from h rows)
unfolding verify_from
verify_from-Verdict h [] = tt
verify_from-Verdict h (r ∷ rs) = elim (Bool-cases (str_eq r.previous_hash h)) [
  | inr e ↦
      rw e (
        FirstBreak-head h r rs previous_hash_mismatch (λ q. cc (e, (eq_iff r.previous_hash h).1 q)))
  | inl e ↦ rw e (elim (Bool-cases (str_eq r.row_hash r.expected_row_hash)) [
    | inr f ↦ rw f (
        FirstBreak-head h r rs row_hash_mismatch (
          (eq_iff r.previous_hash h).0 e,
          λ q. cc (f, (eq_iff r.row_hash r.expected_row_hash).1 q),
        ))
    | inl f ↦ rw f (
        Verdict-cons h r rs (verify_from r.row_hash rs) ((eq_iff r.previous_hash h).0 e)
          ((eq_iff r.row_hash r.expected_row_hash).0 f) (verify_from-Verdict r.row_hash rs))
  ])
]

-- The verifier answers "intact" only for an intact chain, and otherwise names the first row that
-- breaks it: the rows before it are intact, and the row's previous hash is not the hash of the row
-- before it (`previous_hash_mismatch`), or it is, and the row's own hash is not the one computed
-- anew (`row_hash_mismatch`).
pub verify_chain-Verdict :
    (d : Digest) (rows : List ChainRow) → Verdict (genesis d) rows (verify_chain d rows)
unfolding verify_chain
verify_chain-Verdict d rows = verify_from-Verdict (genesis d) rows
