-- ===== src/Tests/Audit.antt =====
-- The audit chain at concrete rows, with a digest that keeps the text as it is.
use mathlib.Core.Bool.{false≢true}
use text.Mathlib.TextEquality.{eq_iff}
use customer_portal.Prelude.{some, none, [], ◌∷◌, zero, suc, refl, ◌≡◌, ℕ, String, map, arith}
use customer_portal.Audit.Digest.{row_hash, Digest, Covered, genesis, message}
use customer_portal.Audit.Chain.{
  AuditLog, ChainRow, previous_hash_mismatch, row_hash_mismatch, verify_chain, insert, fetch_chain,
  chained, break_at, to_chain_row, seed, latest,
}
use customer_portal.Audit.Chain.Soundness.{Verdict, verify_chain-Verdict}
use customer_portal.Audit.Chain.Growth.{IsChained-nil, insert_all, verify_chain-insert_all}
use customer_portal.Audit.Chain.Batch.{verify_chain-same_time}
use customer_portal.Audit.Chain.Tampering.{verify_chain-altered}

abbrev digest : Digest
digest = record {
  sha256 = λ s. s;
  time_text = λ n. elim n [ zero ↦ "0" | suc _ ↦ "1" ];
  uuid_text = λ n. "u";
}

abbrev entry : ℕ → String → Covered
entry at_ event = record {
  occurred_at = at_;
  actor_id = some 7;
  event = event;
  target_id = none;
  payload = none;
}

abbrev first_row : AuditLog
first_row = record { id = 9; covered = entry 5 "a"; previous_hash = ""; row_hash = "|1|u|a||" }

abbrev second_row : AuditLog
second_row = record {
  id = 3;
  covered = entry 6 "b";
  previous_hash = "|1|u|a||";
  row_hash = "|1|u|a|||1|u|b||";
}

abbrev forged : ChainRow
forged = record {
  id = 1;
  occurred_at = 5;
  event = "a";
  previous_hash = "x";
  row_hash = "y";
  expected_row_hash = "y";
}

verify_chain-Verdict_example :
    Verdict (genesis digest) (forged ∷ []) (verify_chain digest (forged ∷ []))
verify_chain-Verdict_example = verify_chain-Verdict digest (forged ∷ [])

verify_chain-insert_all_example :
    verify_chain digest
      (fetch_chain digest (insert_all digest ((9, entry 5 "a") ∷ (3, entry 6 "b") ∷ []) []))
    ≡ none
unfolding insert chained
verify_chain-insert_all_example =
    verify_chain-insert_all digest ((9, entry 5 "a") ∷ (3, entry 6 "b") ∷ []) (tt, ((refl, tt), tt))

verify_chain-same_time_example :
    verify_chain digest
      (fetch_chain digest (insert digest 3 (entry 5 "b") (insert digest 9 (entry 5 "a") [])))
    ≡ some (record { id = 3; occurred_at = 5; event = "b"; reason = previous_hash_mismatch })
unfolding row_hash seed message genesis latest
verify_chain-same_time_example =
    verify_chain-same_time digest [] 9 3 (entry 5 "a") (entry 5 "b") (IsChained-nil digest) refl
      (omega arith) tt tt (λ e. false≢true ((eq_iff "|1|u|a||" "").1 e))

verify_chain-altered_example :
    verify_chain digest
      (map (to_chain_row digest) (record first_row { covered = entry 5 "z" } ∷ second_row ∷ []))
    ≡ some (
        break_at
          (to_chain_row digest (record first_row { covered = entry 5 "z" }))
          row_hash_mismatch)
unfolding to_chain_row row_hash message genesis
verify_chain-altered_example =
    verify_chain-altered digest [] (second_row ∷ []) first_row (entry 5 "z")
      (refl, refl, (refl, refl, tt)) (λ e. false≢true ((eq_iff "|1|u|z||" "|1|u|a||").1 e))
