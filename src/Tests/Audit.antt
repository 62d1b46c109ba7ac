-- ===== src/Tests/Audit.antt =====
-- Two pages of an audit trail with rows of two users.
use multimodal_rag.Prelude.{ℕ, ◌≡◌, refl, true, none, List, [], ◌∷◌, leb}
use multimodal_rag.Prelude.Sort.{sort_desc, insert_desc}
use multimodal_rag.Prelude.Text.{Text, text_eq}
use multimodal_rag.Errors.{value_error}
use multimodal_rag.Exec.{ok, raised}
use multimodal_rag.Audit.{AuditLog, OrderBy, audit_row, list_audit_logs}

abbrev logged : ℕ → Text → AuditLog
logged at user_id = audit_row (λ t. t) (at ∷ []) at user_id none (65 ∷ []) [] true 0 0 10

abbrev trail : List AuditLog
trail = logged 1 (9 ∷ []) ∷ logged 2 (8 ∷ []) ∷ logged 3 (9 ∷ []) ∷ []

abbrev newest_first : OrderBy
newest_first = sort_desc leb (λ r. r.created_at)

own_rows : list_audit_logs newest_first (9 ∷ []) 50 0 trail ≡ (
  ok (record {
    logs = logged 3 (9 ∷ []) ∷ logged 1 (9 ∷ []) ∷ [];
    total = 2;
    limit = 50;
    offset = 0;
  }),
  trail,
)
unfolding list_audit_logs sort_desc insert_desc text_eq
own_rows = refl

second_page :
    list_audit_logs newest_first (9 ∷ []) 1 1 trail
    ≡ (ok (record { logs = logged 1 (9 ∷ []) ∷ []; total = 2; limit = 1; offset = 1 }), trail)
unfolding list_audit_logs sort_desc insert_desc text_eq
second_page = refl

over_the_limit : list_audit_logs newest_first (9 ∷ []) 201 0 trail ≡ (raised value_error, trail)
unfolding list_audit_logs sort_desc insert_desc text_eq
over_the_limit = refl
