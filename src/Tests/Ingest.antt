-- ===== src/Tests/Ingest.antt =====
-- The ingestion pipeline on a mail and on a broken PDF.
use multimodal_rag.Prelude.{
  ℕ, ◌≡◌, refl, ap, sym, ◌∙◌, length-map, none, some, [], ◌∷◌, map, length,
}
use multimodal_rag.Prelude.Text.{text, text_eq}
use multimodal_rag.Errors.{app, parser, other, value_error}
use multimodal_rag.Exec.{ok, raised, ok-pair}
use multimodal_rag.Chunker.{chunk_text}
use multimodal_rag.Stores.Qdrant.{upsert_chunks}
use multimodal_rag.Stores.Elastic.{index_chunks}
use multimodal_rag.Ingest.{Tools, Upload, parser_for, run_ingest_pipeline}
use multimodal_rag.Ingest.Parsers.{
  Libraries, Mail, ◌then◌, or_fallback, pdf_failed, or_parser_error, parse_pdf, parse_email,
}
use multimodal_rag.Ingest.Parsed.{IsParsed, parser_for-IsParsed}
use multimodal_rag.Ingest.Raises.{IsEncoder, AsDocumented, run_ingest_pipeline-AsDocumented}
use multimodal_rag.Tests.Chunker.{letters}
use multimodal_rag.Tests.Stores.{Count, qdrant, es, config, plainly}

abbrev mail : Mail
mail = record {
  subject = text "Hi";
  from_ = text "a@b";
  to = text "c@d";
  date = text "today";
  body = some (text "Some text.");
}

abbrev libraries : Libraries
libraries = record {
  plumber_open = λ b. raised other;
  pdf_reader = λ b. raised other;
  docx_document = λ b. raised other;
  parse_from_bytes = λ b. ok mail;
}

abbrev tools : Tools Count ℕ ℕ
tools = record {
  libraries = libraries;
  encoding = letters;
  chunk_size = 512;
  chunk_overlap = 64;
  encode = λ ts w. (ok (map length ts), w);
  uuid5 = λ d i. i;
  hexdigest = plainly;
  config = config;
  qdrant = qdrant;
  es = es;
}

abbrev upload : Upload
upload = record {
  user_id = text "ann";
  document_id = text "d";
  file_type = text "eml";
  file_bytes = 1 ∷ [];
  filename = text "f.eml";
  doc_metadata = none;
}

parser_for-IsParsed_example : IsParsed (parse_email libraries (1 ∷ []))
unfolding parser_for text text_eq
parser_for-IsParsed_example =
    parser_for-IsParsed libraries (text "eml") (parse_email libraries) (1 ∷ []) refl

broken_pdf :
    parse_pdf libraries []
    ≡ raised (
        app (
          parser
            (text "Could not extract text from PDF. File may be corrupted or scanned/image-only.")))
unfolding parse_pdf ◌then◌ or_fallback pdf_failed
broken_pdf = refl

abbrev after : Count
after = (run_ingest_pipeline tools upload (λ c. 0)).1

ran : run_ingest_pipeline tools upload (λ c. 0) ≡ (ok 1, after)
unfolding run_ingest_pipeline ◌then◌ or_parser_error chunk_text upsert_chunks index_chunks
ran = refl

encode-IsEncoder : IsEncoder tools.encode
encode-IsEncoder = record {
  counts = λ ts vs w t h.
      ap (λ l. length l) (sym (ok-pair (map length ts) vs w t h).0) ∙ length-map length ts;
}

run_ingest_pipeline-AsDocumented_example :
    AsDocumented letters (run_ingest_pipeline tools upload (λ c. 0)).0
run_ingest_pipeline-AsDocumented_example =
    run_ingest_pipeline-AsDocumented tools upload refl encode-IsEncoder (λ c. 0)

-- a tokenizer that refuses the text of the mail
refused_text :
    (run_ingest_pipeline
      (record tools { encoding = record letters { encode = λ s. none } })
      upload
      (λ c. 0)).0
    ≡ raised value_error
unfolding run_ingest_pipeline ◌then◌ or_parser_error chunk_text upsert_chunks index_chunks
refused_text = refl
