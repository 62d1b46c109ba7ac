-- ===== src/Ingest/Parsers.antt =====
-- app/ingestion: base_parser.py, pdf_parser.py, docx_parser.py and email_parser.py over what their
-- libraries read from the bytes of a file.
use multimodal_rag.Prelude.{
  ℕ, Bool, true, false, Option, none, some, List, [], ◌∷◌, ◌++◌, map, length, ◌==◌, ◌||◌,
  if◌then◌else◌,
}
use multimodal_rag.Prelude.Text.{Text, text, strip, join}
use multimodal_rag.Errors.{app, parser}
use multimodal_rag.Exec.{Result, ok, raised}

pub record ParsedDocument : Type 0 where
  pub content : Text
  pub page_count : ℕ
  pub pages : List Text
  pub metadata : List (Text × Text)

-- A page of pdfplumber: its text, and its tables as rows of cells. Both are read late and may fail.
pub record PlumberPage : Type 0 where
  pub extract_text : Result (Option Text)
  pub extract_tables : Result (List (List (List (Option Text))))

pub record Docx : Type 0 where
  pub paragraphs : List Text
  pub tables : List (List (List Text))

-- a mail, its headers as they are formatted
pub record Mail : Type 0 where
  pub subject : Text
  pub from_ : Text
  pub to : Text
  pub date : Text
  pub body : Option Text

-- what opens a file: pdfplumber, pypdf (the text of each page), python-docx and mailparser
pub record Libraries : Type 0 where
  pub plumber_open : List ℕ → Result (List PlumberPage)
  pub pdf_reader : List ℕ → Result (List (Result (Option Text)))
  pub docx_document : List ℕ → Result Docx
  pub parse_from_bytes : List ℕ → Result Mail

infixl 10 ◌then◌
unfoldable pub ◌then◌ : {A B : Type 0} → Result A → (A → Result B) → Result B
(ok a) then f = f a
(raised e) then f = raised e

-- one result for each item, in order, up to the first that raises
unfoldable pub each : {A B : Type 0} → (A → Result B) → List A → Result (List B)
each f [] = ok []
each f (x ∷ xs) = let rest = each f xs in f x then (λ y. rest then (λ ys. ok (y ∷ ys)))

abbrev pub or_blank : Option Text → Text
or_blank none = []
or_blank (some s) = s

abbrev pub is_blank : Text → Bool
is_blank s = elim (strip s) [ [] ↦ true | c ∷ cs ↦ false ]

-- "\n".join(rows) + "\n", each row joined by " | "
unfoldable pub table_text : List (List (List (Option Text))) → Text
unfolding text join
table_text [] = []
table_text (table ∷ tables) =
    join (text "\n") (map (λ row. join (text " | ") (map or_blank row)) table)
    ++ text "\n"
    ++ table_text tables

unfoldable pub page_text : PlumberPage → Result Text
unfolding text table_text strip
page_text page = page.extract_text then (λ content.
    page.extract_tables
    then (λ tables. ok (strip (or_blank content ++ text "\n" ++ table_text tables))))

unfoldable pub document_or_raise :
    Text → Text → ℕ → List Text → List (Text × Text) → Result ParsedDocument
document_or_raise refusal content page_count pages metadata =
    if is_blank content
    then raised (app (parser refusal))
    else ok
        (record { content = content; page_count = page_count; pages = pages; metadata = metadata })

-- the characters that `strip(" |")` takes off
abbrev pub is_border : ℕ → Bool
is_border c = (c == 32) || (c == 124)

unfoldable pub strip_border : Text → Text
strip_border [] = []
strip_border (c ∷ s) = if is_border c then strip_border s else c ∷ s

abbrev pub is_row_blank : Text → Bool
is_row_blank s = elim (strip_border s) [ [] ↦ true | c ∷ cs ↦ false ]

-- the paragraphs and the rows of the tables that are not blank
unfoldable pub paragraph_parts : List Text → List Text
unfolding strip
paragraph_parts [] = []
paragraph_parts (p ∷ ps) = if is_blank p then paragraph_parts ps else p ∷ paragraph_parts ps

unfoldable pub row_parts : List (List Text) → List Text
unfolding text join strip strip_border
row_parts [] = []
row_parts (row ∷ rows) =
    let row_text = join (text " | ") (map strip row) in
    if is_row_blank row_text then row_parts rows else row_text ∷ row_parts rows

unfoldable pub table_parts : List (List (List Text)) → List Text
unfolding row_parts
table_parts [] = []
table_parts (table ∷ tables) = row_parts table ++ table_parts tables

unfoldable pub header_block : Mail → Text
unfolding text
header_block mail =
    text "Subject: "
    ++ mail.subject
    ++ text "\nFrom: "
    ++ mail.from_
    ++ text "\nTo: "
    ++ mail.to
    ++ text "\nDate: "
    ++ mail.date
    ++ text "\n---\n"

unfoldable pub mail_document : Mail → Result ParsedDocument
unfolding header_block text strip
mail_document mail =
    if is_blank (or_blank mail.body)
    then raised (app (parser (text "Email contains no extractable body text.")))
    else ok (record {
      content = header_block mail ++ or_blank mail.body;
      page_count = 1;
      pages = (header_block mail ++ or_blank mail.body) ∷ [];
      metadata =
          (text "parser", text "mailparser")
          ∷ (text "subject", mail.subject)
          ∷ (text "from", mail.from_)
          ∷ (text "date", mail.date)
          ∷ [];
    })

unfoldable pub pdf_failed : Result ParsedDocument → Result ParsedDocument
pdf_failed (ok d) = ok d
pdf_failed (raised e) = raised (
    app (
      parser
        (text "Could not extract text from PDF. File may be corrupted or scanned/image-only.")))

-- the fallback is tried whatever the first method raised
unfoldable pub or_fallback : Result ParsedDocument → Result ParsedDocument → Result ParsedDocument
or_fallback (ok d) second = ok d
or_fallback (raised e) second = pdf_failed second

-- `except ParserError: raise`, before `except Exception`
unfoldable pub or_parser_error : Text → Result ParsedDocument → Result ParsedDocument
or_parser_error refusal (ok d) = ok d
or_parser_error refusal (raised (app (parser m))) = raised (app (parser m))
or_parser_error refusal (raised e) = raised (app (parser refusal))

module _ (libraries : Libraries) where
  unfoldable pub parse_with_pdfplumber : List ℕ → Result ParsedDocument
  unfolding each page_text text join strip
  parse_with_pdfplumber file_bytes = libraries.plumber_open file_bytes then (λ opened.
      each page_text opened then (λ pages.
        document_or_raise
          (text "PDF contains no extractable text. It may be a scanned image without OCR.")
          (join (text "\n\n") pages) (length pages) pages
          ((text "parser", text "pdfplumber") ∷ [])))

  unfoldable pub parse_with_pypdf : List ℕ → Result ParsedDocument
  unfolding each text join strip
  parse_with_pypdf file_bytes = libraries.pdf_reader file_bytes then (λ opened.
      each (λ page. page then (λ content. ok (or_blank content))) opened then (λ pages.
        document_or_raise (text "PDF contains no extractable text.") (join (text "\n\n") pages)
          (length pages) pages ((text "parser", text "pypdf_fallback") ∷ [])))

  unfoldable pub parse_pdf : List ℕ → Result ParsedDocument
  unfolding parse_with_pdfplumber parse_with_pypdf text
  parse_pdf file_bytes =
      or_fallback (parse_with_pdfplumber file_bytes) (parse_with_pypdf file_bytes)

  unfoldable pub parse_docx : List ℕ → Result ParsedDocument
  unfolding paragraph_parts table_parts text join strip
  parse_docx file_bytes =
      or_parser_error (text "Could not extract text from DOCX file. File may be corrupted.") (
        libraries.docx_document file_bytes then (λ doc.
          let full_text =
            join (text "\n") (paragraph_parts doc.paragraphs ++ table_parts doc.tables) in
          document_or_raise (text "DOCX file contains no extractable text.") full_text 1
            (full_text ∷ []) ((text "parser", text "python-docx") ∷ [])))

  unfoldable pub parse_email : List ℕ → Result ParsedDocument
  unfolding mail_document text
  parse_email file_bytes =
      or_parser_error (text "Could not parse email file. File may be malformed.")
        (libraries.parse_from_bytes file_bytes then mail_document)
