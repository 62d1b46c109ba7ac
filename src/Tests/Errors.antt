-- ===== src/Tests/Errors.antt =====
-- Error responses at concrete exceptions.
use multimodal_rag.Prelude.{◌≡◌, refl, [], ◌∷◌}
use multimodal_rag.Prelude.Text.{text, show}
use multimodal_rag.Json.{null}
use multimodal_rag.Errors.{app, conflict, not_found, message, AppError}
use multimodal_rag.Errors.Handlers.{
  respond, key_part, index_part, handle_pydantic_validation, dotted,
}

abbrev missing : AppError
missing = not_found (text "Session")

conflict_status : (respond (app (conflict (text "x")))).status ≡ 500
unfolding respond
conflict_status = refl

not_found_body : (respond (app missing)).detail ≡ text "Session not found."
unfolding respond message text
not_found_body = refl

bad_body :
    handle_pydantic_validation (
      record {
        loc = key_part (text "body") ∷ key_part (text "sources") ∷ index_part 12 ∷ [];
        msg = text "Field required";
        input = null;
      }
      ∷ [])
    ≡ record {
      status = 422;
      code = text "VALIDATION_ERROR";
      details = record { field = text "body.sources.12"; message = text "Field required" } ∷ [];
    }
unfolding handle_pydantic_validation dotted show text
bad_body = refl
