-- ===== src/Facts.antt =====
-- app/services/memory_service.py: a fact and its row of the outbox.
use multimodal_rag.Prelude.{ℕ, Bool, none, List, [], ◌∷◌, ◌++◌, if◌then◌else◌}
use multimodal_rag.Prelude.Text.{Text}
use multimodal_rag.Errors.{other}
use multimodal_rag.Exec.{ok, raised, Exec}
use multimodal_rag.Json.{Fields}
use multimodal_rag.Documents.{upsert_memory, memory_payload, pending, Row, Tables}

-- a row of `semantic_memory`
pub record Fact : Type 0 where
  pub id : Text
  pub user_id : Text
  pub fact_text : Text
  pub metadata : Fields

-- the facts beside the other tables
pub record FactTables : Type 0 where
  pub facts : List Fact
  pub tables : Tables

-- The columns that the insert does not name have their defaults: the operation is UPSERT_MEMORY.
abbrev pub fact_row : Text → Text → ℕ → Text → List Text → Fields → Row
fact_row row_id fact_id now user_id embedding metadata = record {
  id = row_id;
  aggregate_id = fact_id;
  document_id = none;
  operation_type = upsert_memory;
  payload = memory_payload embedding user_id metadata;
  status = pending;
  retry_count = 0;
  created_at = now;
}

-- `fact_id`, `row_id` and `now` are new; `commits` says whether the transaction commits at its end.
unfoldable pub store_semantic_fact :
    Text → Text → ℕ → Bool → Text → Text → List Text → Fields → Exec FactTables (Unit {0})
store_semantic_fact fact_id row_id now commits user_id fact_text embedding metadata s =
    if commits
    then (
      ok tt,
      record {
        facts =
            s.facts
            ++ record {
              id = fact_id;
              user_id = user_id;
              fact_text = fact_text;
              metadata = metadata;
            }
              ∷ [];
        tables = record {
          documents = s.tables.documents;
          outbox = s.tables.outbox ++ fact_row row_id fact_id now user_id embedding metadata ∷ [];
        };
      },
    )
    else (raised other, s)
