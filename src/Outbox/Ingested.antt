-- ===== src/Outbox/Ingested.antt =====
-- An ingestion commits all of a document or nothing, and keeps the tables sound.
use multimodal_rag.Prelude.{
  ℕ, suc, ◌≡◌, ◌⊎◌, inl, inr, refl, subst, append_assoc, true, false, Option, some, List, [], ◌∷◌,
  ◌++◌, length, All, All-map, All-append, arith,
}
use multimodal_rag.Prelude.Text.{Text, text, text_eq, show}
use multimodal_rag.Errors.{Exception, other}
use multimodal_rag.Exec.{Result, ok, raised}
use multimodal_rag.Json.{Fields}
use multimodal_rag.FileValidation.{Sniffer, FileType, validate_file_size, detect_file_type}
use multimodal_rag.Documents.{
  Commit, fails, refresh_fails, goes_through, add_all, processing, mime_of, upsert_chunk,
  chunk_payload, or_empty, Document, pending, Row, Tables, Fresh, new_document, chunk_rows,
  placeholder_chunks, ingest_document,
}
use multimodal_rag.Outbox.{of_document, remaining}
use multimodal_rag.Outbox.Rows.{text_eq_sym}
use multimodal_rag.Outbox.Ready.{is_ready, Settled, IsSound}
use multimodal_rag.Outbox.Writes.{Unused, IsSound-snoc}

-- the ids of an ingestion are new
pub record IsFresh (fresh : Fresh) (t : Tables) : Type 0 where
  pub documents : All (λ d. text_eq d.id fresh.document_id ≡ false) t.documents
  pub rows : (i : ℕ) → Unused (fresh.row_id i) t.outbox
  pub distinct : text_eq (fresh.row_id 0) (fresh.row_id 1) ≡ false

Settled-join :
    (rows : List Row) (ds : List Document) (d : Document)
    → is_ready d.status ≡ false
    → Settled rows ds
    → Settled rows (ds ++ d ∷ [])
Settled-join rows ds d e h =
    All-append (λ d. is_ready d.status ≡ true → remaining d.id rows ≡ 0) ds (d ∷ []) h
      (λ r. absurd (ground arith), tt)

other_documents :
    (fresh : Fresh) (ds : List Document) (d : Document) (y : Row)
    → y.document_id ≡ some fresh.document_id
    → is_ready d.status ≡ false
    → All (λ d. text_eq d.id fresh.document_id ≡ false) ds
    → All (λ d. is_ready d.status ≡ true → of_document d.id y ≡ false) (ds ++ d ∷ [])
other_documents fresh ds d y at e new =
    All-append (λ d. is_ready d.status ≡ true → of_document d.id y ≡ false) ds (d ∷ [])
      (All-map
        (λ x (n : text_eq x.id fresh.document_id ≡ false).
          λ r. rw at (text_eq_sym x.id fresh.document_id n))
        ds new)
      (λ r. absurd (ground arith), tt)

module _ (sniffer : Sniffer) (max_mb : ℕ) (fresh : Fresh) (user_id filename : Text)
    (file_bytes : List ℕ) (doc_metadata : Option Fields) where
  -- the rows of the chunks with some texts, from number `i` on
  abbrev pub AreChunks : ℕ → List Text → List Row → Type 0
  AreChunks i [] [] = Unit
  AreChunks i [] (r ∷ rs) = ⊥
  AreChunks i (c ∷ cs) [] = ⊥
  AreChunks i (c ∷ cs) (r ∷ rs) =
      (r.payload ≡ chunk_payload i c (or_empty doc_metadata) user_id)
      × (r.aggregate_id ≡ fresh.uuid5 fresh.document_id (show i))
      × (r.document_id ≡ some fresh.document_id)
      × (r.operation_type ≡ upsert_chunk)
      × (r.status ≡ pending)
      × (r.retry_count ≡ 0)
      × AreChunks (suc i) cs rs

  -- a document of what was uploaded, with a row for each of its chunks, both added to the tables
  pub record IsQueued (t : Tables) (d : Document) (rows : List Row) (u : Tables) : Type 0 where
    pub small_enough : validate_file_size max_mb file_bytes ≡ ok tt
    pub file_type : FileType
    pub detected : detect_file_type sniffer file_bytes ≡ ok file_type
    pub id : d.id ≡ fresh.document_id
    pub owner : d.user_id ≡ user_id
    pub name : d.filename ≡ filename
    pub mime : d.mime_type ≡ mime_of file_type
    pub size : d.size_bytes ≡ length file_bytes
    pub metadata : d.doc_metadata ≡ doc_metadata
    pub unfinished : d.status ≡ processing
    pub all_chunks : d.chunk_count ≡ length rows
    pub chunks : AreChunks 0 (text "chunk 1 text" ∷ text "chunk 2 text" ∷ []) rows
    pub added : u ≡ record { documents = t.documents ++ d ∷ []; outbox = t.outbox ++ rows }
    pub sound : IsSound u

  queue-IsQueued :
      (file_type : FileType) (t : Tables)
      → validate_file_size max_mb file_bytes ≡ ok tt
      → detect_file_type sniffer file_bytes ≡ ok file_type
      → IsFresh fresh t
      → IsSound t
      → IsQueued t
          (new_document fresh user_id filename file_bytes doc_metadata file_type)
          (chunk_rows fresh user_id doc_metadata 0 placeholder_chunks)
          (record {
            documents =
                t.documents
                ++ new_document fresh user_id filename file_bytes doc_metadata file_type ∷ [];
            outbox = t.outbox ++ chunk_rows fresh user_id doc_metadata 0 placeholder_chunks;
          })
  unfolding chunk_rows text
  queue-IsQueued file_type t small detected f h =
      let d : Document = new_document fresh user_id filename file_bytes doc_metadata file_type in
      let a : IsSound (record { documents = t.documents ++ d ∷ []; outbox = t.outbox }) = record {
        apart = h.apart;
        settled = Settled-join t.outbox t.documents d refl h.settled;
        counted = h.counted;
      } in
      let b =
        IsSound-snoc (record { documents = t.documents ++ d ∷ []; outbox = t.outbox })
          (row_at 0 (text "chunk 1 text")) (f.rows 0)
          (other_documents fresh t.documents d (row_at 0 (text "chunk 1 text")) refl refl
            f.documents)
          (omega arith) a in
      let c =
        IsSound-snoc
          (record {
            documents = t.documents ++ d ∷ [];
            outbox = t.outbox ++ row_at 0 (text "chunk 1 text") ∷ [];
          })
          (row_at 1 (text "chunk 2 text"))
          (All-append (λ r. text_eq r.id (fresh.row_id 1) ≡ false) t.outbox
            (row_at 0 (text "chunk 1 text") ∷ []) (f.rows 1) (f.distinct, tt))
          (other_documents fresh t.documents d (row_at 1 (text "chunk 2 text")) refl refl
            f.documents)
          (omega arith) b in
      record {
        small_enough = small;
        file_type = file_type;
        detected = detected;
        id = refl;
        owner = refl;
        name = refl;
        mime = refl;
        size = refl;
        metadata = refl;
        unfinished = refl;
        all_chunks = refl;
        chunks = (refl, refl, refl, refl, refl, refl, (refl, refl, refl, refl, refl, refl, tt));
        added = refl;
        sound =
            subst (λ l. IsSound (record { documents = t.documents ++ d ∷ []; outbox = l }))
              (append_assoc t.outbox (row_at 0 (text "chunk 1 text") ∷ [])
                (row_at 1 (text "chunk 2 text") ∷ []))
              c;
      }
    where
      row_at : ℕ → Text → Row
      row_at i c = record {
        id = fresh.row_id i;
        aggregate_id = fresh.uuid5 fresh.document_id (show i);
        document_id = some fresh.document_id;
        operation_type = upsert_chunk;
        payload = chunk_payload i c (or_empty doc_metadata) user_id;
        status = pending;
        retry_count = 0;
        created_at = fresh.now;
      }

  -- what the commit of an ingestion makes of it
  abbrev pub Ends : Commit → Document → Result Document → Type 0
  Ends fails d o = ⊥
  Ends refresh_fails d o = o ≡ raised other
  Ends goes_through d o = o ≡ ok d

  -- where an ingestion that leaves the tables as they are comes from
  abbrev pub Unchanged : Commit → Exception → Type 0
  Unchanged commits e =
      (validate_file_size max_mb file_bytes ≡ raised e)
      ⊎ (detect_file_type sniffer file_bytes ≡ raised e)
      ⊎ (commits ≡ fails)

  abbrev pub AllOrNothing : Commit → Tables → Type 0
  AllOrNothing commits t =
      ((e : Exception) × (ingest_document sniffer max_mb fresh commits user_id filename file_bytes
            doc_metadata t
          ≡ (raised e, t))
        × Unchanged commits e)
      ⊎ ((d : Document) × (rows : List Row) × (u : Tables) × (o : Result Document)
          × (ingest_document sniffer max_mb fresh commits user_id filename file_bytes doc_metadata t
              ≡ (o, u))
          × Ends commits d o
          × IsQueued t d rows u)

  -- An ingestion changes nothing, which is where the file is too large or of no known type or where the
  -- commit fails, and then it raises; or it adds at once a document with what was uploaded and one
  -- pending row for each of its two chunks, with its text, and keeps the tables sound. After that it
  -- returns the document, or raises where the refresh fails, with everything written. The ids are
  -- assumed to be new and the tables sound.
  pub ingest_document-atomic :
      (commits : Commit) (t : Tables) → IsFresh fresh t → IsSound t → AllOrNothing commits t
  unfolding ingest_document
  ingest_document-atomic commits t f h =
      go (validate_file_size max_mb file_bytes) (detect_file_type sniffer file_bytes) commits refl
        refl refl
    where
      made : FileType → Document
      made = new_document fresh user_id filename file_bytes doc_metadata

      rows : List Row
      rows = chunk_rows fresh user_id doc_metadata 0 placeholder_chunks

      go :
          (a : Result (Unit {0})) (b : Result FileType) (c : Commit)
          → validate_file_size max_mb file_bytes ≡ a
          → detect_file_type sniffer file_bytes ≡ b
          → commits ≡ c
          → AllOrNothing commits t
      go (raised e) b c p q r = inl (e, rw p refl, inl p)
      go (ok a) (raised e) c p q r = inl (e, rw (p, q) refl, inr (inl q))
      go (ok a) (ok b) fails p q r = inl (other, rw (p, q, r) refl, inr (inr r))
      go (ok a) (ok b) refresh_fails p q r = inr (
        made b,
        rows,
        add_all (made b) rows t,
        raised other,
        rw (p, q, r) refl,
        rw r refl,
        queue-IsQueued b t p q f h,
      )
      go (ok a) (ok b) goes_through p q r = inr (
        made b,
        rows,
        add_all (made b) rows t,
        ok (made b),
        rw (p, q, r) refl,
        rw r refl,
        queue-IsQueued b t p q f h,
      )
