-- ===== src/Audit/Tests.antt =====
-- A record in an empty log.
use kenjutsu.Base.{String, ◌≡◌, refl, []}
use kenjutsu.Audit.{AuditRecord, review_complete, write_audit_record}

abbrev completed : AuditRecord String
completed = record {
  installation_id = "i";
  repo_id = "r";
  action = review_complete;
  detail_json = "{}";
}

written : (write_audit_record (λ rows. "id-1") (λ detail. detail) completed []).0 ≡ "id-1"
unfolding write_audit_record
written = refl
