-- ===== src/Audit.antt =====
-- app/services/audit_service.py and the listing of app/api/v1/audit.py.
use multimodal_rag.Prelude.{
  ℕ, Bool, Option, List, [], ◌∷◌, ◌++◌, keep, length, take, drop, leb, ◌&&◌, if◌then◌else◌,
}
use multimodal_rag.Prelude.Text.{Text, text_eq}
use multimodal_rag.Errors.{value_error}
use multimodal_rag.Exec.{ok, raised, Exec}

-- what the audit trail keeps of a source
pub record SourceSummary : Type 0 where
  pub chunk_id : Text
  pub document_id : Option Text

-- A row of `audit_log`. The result of the critic is whether it is `PASS`.
pub record AuditLog : Type 0 where
  pub id : Text
  pub user_id : Text
  pub session_id : Option Text
  pub query_hash : Text
  pub sources_used : List SourceSummary
  pub critic_passed : Bool
  pub critic_corrections : ℕ
  pub retry_count : ℕ
  pub latency_ms : ℕ
  pub created_at : ℕ

abbrev pub audit_row :
    (Text → Text)
    → Text
    → ℕ
    → Text
    → Option Text
    → Text
    → List SourceSummary
    → Bool
    → ℕ
    → ℕ
    → ℕ
    → AuditLog
audit_row sha256 new_id now user_id session_id query sources critic_passed critic_corrections
      retry_count latency_ms =
    record {
      id = new_id;
      user_id = user_id;
      session_id = session_id;
      query_hash = sha256 query;
      sources_used = sources;
      critic_passed = critic_passed;
      critic_corrections = critic_corrections;
      retry_count = retry_count;
      latency_ms = latency_ms;
      created_at = now;
    }

abbrev pub log_row : AuditLog → Exec (List AuditLog) AuditLog
log_row row = λ rows. (ok row, rows ++ row ∷ [])

-- AuditLogResponse
pub record Page : Type 0 where
  pub logs : List AuditLog
  pub total : ℕ
  pub limit : ℕ
  pub offset : ℕ

-- `ORDER BY created_at DESC`, where the order of rows with the same time is the database's
abbrev pub OrderBy : Type 0
OrderBy = List AuditLog → List AuditLog

-- the page of the user's own rows, newest first
unfoldable pub list_audit_logs : OrderBy → Text → ℕ → ℕ → Exec (List AuditLog) Page
unfolding text_eq
list_audit_logs order_by user_id limit offset rows =
    let own = keep (λ r. text_eq r.user_id user_id) rows in
    if leb 1 limit && leb limit 200
    then (
      ok (record {
        logs = take limit (drop offset (order_by own));
        total = length own;
        limit = limit;
        offset = offset;
      }),
      rows,
    )
    else (raised value_error, rows)
