-- ===== src/FileValidation.antt =====
-- app/core/file_validation.py: the size and the type of an upload.
use multimodal_rag.Prelude.{
  ℕ, ◌*◌, Bool, true, false, Option, none, some, List, [], ◌∷◌, map, take, length, any, ltb, ◌==◌,
  ◌||◌, if◌then◌else◌,
}
use multimodal_rag.Prelude.Text.{Text, text, text_eq, contains, lower_char}
use multimodal_rag.Errors.{app, file_too_large, unsupported_file_type}
use multimodal_rag.Exec.{Result, ok, raised}

pub data FileType : Type 0 where
  pdf : FileType
  docx : FileType
  eml : FileType

-- `magic.from_buffer(…, mime=True)`, and `bytes.decode("utf-8", errors="ignore")`
pub record Sniffer : Type 0 where
  pub from_buffer : List ℕ → Text
  pub decode : List ℕ → Text

unfoldable pub validate_file_size : ℕ → List ℕ → Result (Unit {0})
validate_file_size max_upload_size_mb file_bytes =
    if ltb (max_upload_size_mb * 1024 * 1024) (length file_bytes)
    then raised (app (file_too_large max_upload_size_mb))
    else (if length file_bytes == 0 then raised (app unsupported_file_type) else ok tt)

unfoldable pub mime_to_type : Text → Option FileType
unfolding text text_eq
mime_to_type mime =
    if text_eq mime (text "application/pdf")
    then some pdf
    else (if text_eq mime
          (text "application/vnd.openxmlformats-officedocument.wordprocessingml.document")
        then some docx
        else (if text_eq mime (text "message/rfc822") then some eml else none))

abbrev pub headers : List Text
headers = text "from:" ∷ text "to:" ∷ text "subject:" ∷ text "date:" ∷ text "message-id:" ∷ []

-- the fallback for mail that libmagic takes for plain text
unfoldable pub looks_like_mail : Text → Text → Bool
unfolding text text_eq contains lower_char
looks_like_mail mime head =
    if text_eq mime (text "text/plain") || text_eq mime (text "text/x-mail")
    then any (λ h. contains h (map lower_char head)) headers
    else false

abbrev pub or_mail : Option FileType → Bool → Result FileType
or_mail (some t) mail = ok t
or_mail none true = ok eml
or_mail none false = raised (app unsupported_file_type)

unfoldable pub detect_file_type : Sniffer → List ℕ → Result FileType
unfolding mime_to_type looks_like_mail
detect_file_type sniffer file_bytes =
    let mime = sniffer.from_buffer file_bytes in
    or_mail (mime_to_type mime) (looks_like_mail mime (sniffer.decode (take 1000 file_bytes)))
