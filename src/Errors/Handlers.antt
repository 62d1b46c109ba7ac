-- ===== src/Errors/Handlers.antt =====
-- app/core/error_handlers.py: the one place where an exception becomes an HTTP response.
use multimodal_rag.Prelude.{ℕ, Option, none, some, leb, List, [], ◌∷◌, ◌++◌, map, if◌then◌else◌}
use multimodal_rag.Prelude.Text.{Text, text, show}
use multimodal_rag.Json.{Json}
use multimodal_rag.Errors.{AppError, Exception, message, error_code, app, http, value_error, other}
use multimodal_rag.Errors.{
  validation_error, file_too_large, unsupported_file_type, unauthorized, invalid_token, forbidden,
  not_found, conflict, rate_limit_exceeded, internal, embedding, retrieval, generation, parser,
  reranker,
}

-- `JSONResponse` with the error envelope, and its `Retry-After` header where it has one.
pub record Response : Type 0 where
  pub status : ℕ
  pub code : Text
  pub detail : Text
  pub retry_after : Option ℕ

-- `_STATUS_MAP.get(type(exc))`: the exact class is looked up, not its base class.
unfoldable pub status_map : AppError → Option ℕ
status_map (validation_error m field) = some 400
status_map (file_too_large max_mb) = some 400
status_map unsupported_file_type = some 400
status_map invalid_token = some 401
status_map (unauthorized m) = some 401
status_map (forbidden m) = some 403
status_map (not_found resource) = some 404
status_map (rate_limit_exceeded seconds) = some 429
status_map (conflict m) = none
status_map (internal m) = none
status_map embedding = none
status_map retrieval = none
status_map generation = none
status_map (parser m) = none
status_map (reranker m) = none

abbrev pub get_or : Option ℕ → ℕ → ℕ
get_or none d = d
get_or (some n) d = n

unfoldable pub error_response : ℕ → Text → Text → Response
error_response status code detail = record {
  status = status;
  code = code;
  detail = detail;
  retry_after = none;
}

abbrev pub retry_seconds : AppError → Option ℕ
retry_seconds (rate_limit_exceeded seconds) = some seconds
retry_seconds _ = none

unfoldable pub unexpected : Response
unfolding error_response text
unexpected = error_response 500 (text "INTERNAL_ERROR") (text "An unexpected error occurred.")

-- The class test `isinstance(exc, RateLimitExceededError)`, after the test on the status.
unfoldable pub client_error : ℕ → AppError → Response
unfolding error_response
client_error status exc = elim (retry_seconds exc) [
  | none ↦ error_response status (error_code exc) (message exc)
  | some seconds ↦ record (error_response 429 (error_code exc) (message exc)) {
    retry_after = some seconds;
  }
]

unfoldable pub handle_app_error : AppError → Response
unfolding status_map client_error unexpected
handle_app_error exc =
    let status = get_or (status_map exc) 500 in
    if leb 500 status then unexpected else client_error status exc

abbrev pub detail_or : Text → Text → Text
detail_or [] d = d
detail_or (c ∷ s) d = c ∷ s

-- an entry of `exc.errors()`, where the location of a value has keys and indices
pub data Part : Type 0 where
  key_part : Text → Part
  index_part : ℕ → Part

pub record FieldError : Type 0 where
  pub loc : List Part
  pub msg : Text
  pub input : Json

pub record FieldDetail : Type 0 where
  pub field : Text
  pub message : Text

-- the envelope of a 422, with its details in place of a message
pub record ValidationResponse : Type 0 where
  pub status : ℕ
  pub code : Text
  pub details : List FieldDetail

abbrev pub part_text : Part → Text
part_text (key_part k) = k
part_text (index_part i) = show i

-- `".".join(…)`
unfoldable pub dotted : List Part → Text
unfolding text show
dotted [] = []
dotted (p ∷ []) = part_text p
dotted (p ∷ q ∷ ps) = part_text p ++ text "." ++ dotted (q ∷ ps)

unfoldable pub handle_pydantic_validation : List FieldError → ValidationResponse
unfolding dotted text
handle_pydantic_validation errors = record {
  status = 422;
  code = text "VALIDATION_ERROR";
  details = map (λ err. record { field = dotted err.loc; message = err.msg }) errors;
}

unfoldable pub handle_starlette_http : ℕ → Text → Response
unfolding error_response text
handle_starlette_http status detail =
    error_response status (text "HTTP_ERROR") (detail_or detail (text "Request error."))

-- The registered handlers together: the last resort takes what no other handler does.
unfoldable pub respond : Exception → Response
unfolding handle_app_error handle_starlette_http unexpected
respond (app exc) = handle_app_error exc
respond (http status detail) = handle_starlette_http status detail
respond value_error = unexpected
respond other = unexpected
