-- ===== src/Audit.antt =====
-- kenjutsu/publisher/audit.py: the log of completed reviews. The ids that the database makes are a
-- parameter.
mod Tests
use kenjutsu.Base.{ℕ, String, List, [], ◌∷◌, ◌++◌, length}

pub data AuditAction : Type 0 where
  review_complete : AuditAction

pub record AuditRecord (D : Type 0) : Type 0 where
  pub installation_id : String
  pub repo_id : String
  pub action : AuditAction
  pub detail_json : D

pub record AuditRow : Type 0 where
  pub id : String
  pub installation_id : String
  pub repo_id : String
  pub action : AuditAction
  pub detail_json : String

-- The INSERT, with the id that it returns.
unfoldable pub write_audit_record :
    {D : Type 0}
    → (List AuditRow → String)
    → (D → String)
    → AuditRecord D
    → List AuditRow
    → String × List AuditRow
write_audit_record new_id dumps r rows =
    let id = new_id rows in
    (
      id,
      rows
          ++ (record {
            id = id;
            installation_id = r.installation_id;
            repo_id = r.repo_id;
            action = r.action;
            detail_json = dumps r.detail_json;
          })
            ∷ [],
    )
