-- ===== src/Audit/Digest.antt =====
-- `audit_log_row_hash` of migrations/versions/57a978462b74_add_audit_log_and_history_view.py.
use Prim.Native.String.{String, ◌++◌}
use Prim.Native.Nat.{ℕ}
use mathlib.Core.Option.{Option, none, some}

-- PostgreSQL's SHA-256 as hexadecimal text, and its text of a timestamp and of a UUID.
pub record Digest : Type 0 where
  pub sha256 : String → String
  pub time_text : ℕ → String
  pub uuid_text : ℕ → String

-- The fields of a row that its hash covers. `payload` is the text of the jsonb value.
pub record Covered : Type 0 where
  pub occurred_at : ℕ
  pub actor_id : Option ℕ
  pub event : String
  pub target_id : Option ℕ
  pub payload : Option String

-- COALESCE(p_id::text, '')
abbrev optional_uuid : Digest → Option ℕ → String
optional_uuid d none = ""
optional_uuid d (some id) = d.uuid_text id

abbrev optional_text : Option String → String
optional_text none = ""
optional_text (some t) = t

-- The text that is hashed: the previous hash and the covered fields, joined by bars.
unfoldable pub message : Digest → String → Covered → String
message d previous c =
    previous
    ++ ("|"
        ++ (d.time_text c.occurred_at
            ++ ("|"
                ++ (optional_uuid d c.actor_id
                    ++ ("|"
                        ++ (c.event
                            ++ ("|"
                                ++ (optional_uuid d c.target_id
                                    ++ ("|" ++ optional_text c.payload)))))))))

unfoldable pub row_hash : Digest → String → Covered → String
row_hash d previous c = d.sha256 (message d previous c)

-- The hash that the first row ever inserted is chained to.
unfoldable pub genesis : Digest → String
genesis d = d.sha256 ""
