-- ===== src/Ingest/Parsed.antt =====
-- What the parsers of app/ingestion give: a document with text in it, or a ParserError.
use mathlib.Core.List.{reverse, reverse-cons}
use multimodal_rag.Prelude.{
  ℕ, ◌≡◌, refl, ap, subst, ◌∙◌, Bool, true, false, Bool-cases, Option, none, some, List, [], ◌∷◌,
  ◌++◌, length, drop, inl, inr, if◌then◌else◌,
}
use multimodal_rag.Prelude.Text.{Text, text, strip, lstrip, is_space}
use multimodal_rag.Errors.{app, parser}
use multimodal_rag.Exec.{Result, ok, raised}
use multimodal_rag.Ingest.{Parser, parser_for}
use multimodal_rag.Ingest.Parsers.{
  ParsedDocument, Libraries, Mail, is_blank, or_blank, document_or_raise, ◌then◌, or_fallback,
  pdf_failed, or_parser_error, parse_with_pdfplumber, parse_with_pypdf, parse_pdf, parse_docx,
  parse_email, header_block, mail_document,
}

-- a document that is not blank, with as many pages as it counts
abbrev pub HasText : ParsedDocument → Type 0
HasText d = (is_blank d.content ≡ false) × (d.page_count ≡ length d.pages)

abbrev pub IsParsed : Result ParsedDocument → Type 0
IsParsed (ok d) = HasText d
IsParsed (raised e) = (m : Text) × (e ≡ app (parser m))

abbrev Good : Result ParsedDocument → Type 0
Good (ok d) = HasText d
Good (raised e) = Unit {0}

-- a record, so that its argument is determined
record IsGood (r : Result ParsedDocument) : Type 0 where
  at : Good r

document_or_raise-Good :
    (refusal content : Text) (pages : List Text) (metadata : List (Text × Text)) (n : ℕ)
    → n ≡ length pages
    → Good (document_or_raise refusal content n pages metadata)
unfolding document_or_raise
document_or_raise-Good refusal content pages metadata n h = elim (Bool-cases (is_blank content)) [
  | inl e ↦ rw e tt
  | inr e ↦ rw e (e, h)
]

document_or_raise-IsGood :
    (refusal content : Text) (pages : List Text) (metadata : List (Text × Text)) (n : ℕ)
    → n ≡ length pages
    → IsGood (document_or_raise refusal content n pages metadata)
document_or_raise-IsGood refusal content pages metadata n h = record {
  at = document_or_raise-Good refusal content pages metadata n h;
}

then-Good :
    {A : Type 0} (r : Result A) (f : A → Result ParsedDocument)
    → ((a : A) → IsGood (f a))
    → Good (r then f)
unfolding ◌then◌
then-Good (ok a) f h = (h a).at
then-Good (raised e) f h = tt

then-IsGood :
    {A : Type 0} (r : Result A) (f : A → Result ParsedDocument)
    → ((a : A) → IsGood (f a))
    → IsGood (r then f)
then-IsGood r f h = record { at = then-Good r f h }

pdf_failed-IsParsed : (r : Result ParsedDocument) → Good r → IsParsed (pdf_failed r)
unfolding pdf_failed
pdf_failed-IsParsed (ok d) g = g
pdf_failed-IsParsed (raised e) g = (_, refl)

or_fallback-IsParsed :
    (r s : Result ParsedDocument) → IsGood r → IsGood s → IsParsed (or_fallback r s)
unfolding or_fallback
or_fallback-IsParsed (ok d) s g h = g.at
or_fallback-IsParsed (raised e) s g h = pdf_failed-IsParsed s h.at

or_parser_error-IsParsed :
    (refusal : Text) (r : Result ParsedDocument) → IsGood r → IsParsed (or_parser_error refusal r)
unfolding or_parser_error
or_parser_error-IsParsed refusal (ok d) g = g.at
or_parser_error-IsParsed refusal (raised (app (parser m))) g = (m, refl)
or_parser_error-IsParsed refusal (raised e) g = (refusal, refl)

-- Text that starts with a letter is not blank.
lstrip-snoc :
    (s : Text) (c : ℕ) → is_space c ≡ false → (d : ℕ) × (t : Text) × (lstrip (s ++ c ∷ []) ≡ d ∷ t)
unfolding lstrip
lstrip-snoc [] c h = (c, [], rw h refl)
lstrip-snoc (x ∷ s) c h = elim (Bool-cases (is_space x)) [
  | inl e ↦ rw e (lstrip-snoc s c h)
  | inr e ↦ (x, s ++ c ∷ [], rw e refl)
]

abbrev is_nil : Text → Bool
is_nil [] = true
is_nil (c ∷ s) = false

snoc-not-nil : (s : Text) (c : ℕ) → is_nil (s ++ c ∷ []) ≡ false
snoc-not-nil [] c = refl
snoc-not-nil (x ∷ s) c = refl

reverse-not-nil : (c : ℕ) (s : Text) → is_nil (reverse (c ∷ s)) ≡ false
reverse-not-nil c s = rw (reverse-cons c s) (snoc-not-nil (reverse s) c)

is_blank-is_nil : (s t : Text) → strip s ≡ t → is_nil t ≡ false → is_blank s ≡ false
is_blank-is_nil s [] e n = cc
is_blank-is_nil s (c ∷ t) e n = rw (is_blank, e) refl

cons-not-blank : (c : ℕ) (s : Text) → is_space c ≡ false → is_blank (c ∷ s) ≡ false
unfolding strip
cons-not-blank c s h =
    let (d, t, e) = lstrip-snoc (reverse s) c h in
    is_blank-is_nil (c ∷ s) (reverse (d ∷ t))
      (ap (λ x. reverse (lstrip (reverse x))) (first_kept c s h)
        ∙ ap (λ x. reverse (lstrip x)) (reverse-cons c s)
        ∙ ap reverse e)
      (reverse-not-nil d t)
  where
    first_kept : (c : ℕ) (s : Text) → is_space c ≡ false → lstrip (c ∷ s) ≡ c ∷ s
    first_kept c s h = rw (lstrip, h) refl

header-not-blank : (mail : Mail) (s : Text) → is_blank (header_block mail ++ s) ≡ false
unfolding header_block text is_space
header-not-blank mail s = cons-not-blank 83 (drop 1 (header_block mail ++ s)) refl

mail_document-Good : (mail : Mail) → Good (mail_document mail)
unfolding mail_document
mail_document-Good mail = elim (Bool-cases (is_blank (or_blank mail.body))) [
  | inl e ↦ rw e tt
  | inr e ↦ rw e (header-not-blank mail (or_blank mail.body), refl)
]

some-eq : (p q : Parser) → ◌≡◌ {A = Option Parser} (some p) (some q) → p ≡ q
some-eq p q h = cc

-- the three parsers of a table that is asked by three tests
choice-IsParsed :
    (a b c : Bool) (p d e parse : Parser) (file_bytes : List ℕ)
    → IsParsed (p file_bytes)
    → IsParsed (d file_bytes)
    → IsParsed (e file_bytes)
    → (if a then some p else (if b then some d else (if c then some e else none))) ≡ some parse
    → IsParsed (parse file_bytes)
choice-IsParsed true b c p d e parse bytes x y z h =
    subst (λ q. IsParsed (q bytes)) (some-eq p parse h) x
choice-IsParsed false true c p d e parse bytes x y z h =
    subst (λ q. IsParsed (q bytes)) (some-eq d parse h) y
choice-IsParsed false false true p d e parse bytes x y z h =
    subst (λ q. IsParsed (q bytes)) (some-eq e parse h) z
choice-IsParsed false false false p d e parse bytes x y z h = cc

module _ (libraries : Libraries) where
  parse_pdf-IsParsed : (file_bytes : List ℕ) → IsParsed (parse_pdf libraries file_bytes)
  unfolding parse_pdf parse_with_pdfplumber parse_with_pypdf
  parse_pdf-IsParsed file_bytes =
      or_fallback-IsParsed (parse_with_pdfplumber libraries file_bytes)
        (parse_with_pypdf libraries file_bytes)
        (then-IsGood _ _
          (λ opened. then-IsGood _ _ (λ pages. document_or_raise-IsGood _ _ pages _ _ refl)))
        (then-IsGood _ _
          (λ opened. then-IsGood _ _ (λ pages. document_or_raise-IsGood _ _ pages _ _ refl)))

  parse_docx-IsParsed : (file_bytes : List ℕ) → IsParsed (parse_docx libraries file_bytes)
  unfolding parse_docx
  parse_docx-IsParsed file_bytes =
      or_parser_error-IsParsed _ _
        (then-IsGood _ _ (λ doc. document_or_raise-IsGood _ _ _ _ 1 refl))

  parse_email-IsParsed : (file_bytes : List ℕ) → IsParsed (parse_email libraries file_bytes)
  unfolding parse_email
  parse_email-IsParsed file_bytes =
      or_parser_error-IsParsed _ _
        (then-IsGood _ _ (λ mail. record { at = mail_document-Good mail }))

  -- A parser that is registered gives a document that is not blank and has as many pages as it
  -- counts, or raises a ParserError, whatever its libraries read or raise.
  pub parser_for-IsParsed :
      (file_type : Text) (parse : Parser) (file_bytes : List ℕ)
      → parser_for libraries file_type ≡ some parse
      → IsParsed (parse file_bytes)
  unfolding parser_for
  parser_for-IsParsed file_type parse file_bytes h =
      choice-IsParsed _ _ _ (parse_pdf libraries) (parse_docx libraries) (parse_email libraries)
        parse file_bytes (parse_pdf-IsParsed file_bytes) (parse_docx-IsParsed file_bytes)
        (parse_email-IsParsed file_bytes) h
