-- ===== src/Audit.antt =====
-- The rows of `audit_log` and app/audit_trail.py. The text of a row is kept by its parts, the actor
-- and the note, in place of the sentence that is put together from them.
use law_review_local.Common.{ℕ, String, Option, List, keep, str_eq, not}

pub record AuditRow : Type 0 where
  pub case_id : Option ℕ
  pub action : String
  pub actor : String
  pub note : String

-- A field of a record before and after an edit, its values rendered.
pub record FieldChange : Type 0 where
  pub field : String
  pub before : String
  pub after : String

-- The comprehension of `record_field_changes`: the fields whose value really changed.
unfoldable pub changed_fields : List FieldChange → List FieldChange
changed_fields fs = keep (λ f. not (str_eq f.before f.after)) fs
