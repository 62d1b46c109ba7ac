-- ===== src/Stores/Reading.antt =====
-- What the writes of app/vector_store/qdrant_client.py and app/search/es_client.py store is what the
-- searches read.
use multimodal_rag.Prelude.{
  ℕ, zero, suc, ◌≡◌, refl, Option, none, some, List, [], ◌∷◌, map, length, All, arith,
}
use multimodal_rag.Prelude.Text.{Text, text, text_eq}
use multimodal_rag.Exec.{ok}
use multimodal_rag.Json.{str, Fields, get, get-update}
use multimodal_rag.Stores.Qdrant.{
  Point, ScoredPoint, Found, points, found_of, base_payload, with_metadata, metadata_at,
}
use multimodal_rag.Stores.Elastic.{IndexOperation, EsHit, operations, read_hits, es_document}

-- metadata that leaves alone what the searches read
abbrev pub Plain : Fields → Type 0
Plain metadata = (get (text "text") metadata ≡ none) × (get (text "document_id") metadata ≡ none)

abbrev pub AllPlain : Option (List Fields) → Type 0
AllPlain none = Unit
AllPlain (some all) = All Plain all

-- The results name the chunks of the document, with their texts, in order.
pub record Reads {F : Type 0} (document_id : Text) (ids texts : List Text) (found : List (Found F))
    : Type 0 where
  pub names : map (λ x. x.chunk_id) found ≡ ids
  pub contents : map (λ x. x.content) found ≡ map str texts
  pub documents : All (λ x. x.document_id ≡ some (str document_id)) found

module _ {F : Type 0} (score : F) (user_id document_id : Text) where
  Reads-cons :
      (cid content : Text) (ids texts : List Text) (x : Found F) (found : List (Found F))
      → x.chunk_id ≡ cid
      → x.content ≡ str content
      → x.document_id ≡ some (str document_id)
      → Reads document_id ids texts found
      → Reads document_id (cid ∷ ids) (content ∷ texts) (x ∷ found)
  Reads-cons cid content ids texts x found a b c r = record {
    names = cc (r.names);
    contents = cc (r.contents);
    documents = (c, r.documents);
  }

  -- a point as a search returns it
  abbrev pub scored : {V : Type 0} → Point V → ScoredPoint F
  scored p = record { id = p.id; score = score; payload = some p.payload }

  abbrev pub es_hit : IndexOperation → EsHit F
  es_hit o = record { id = o.id; score = score; source = o.document }

  PlainAt : Option Fields → Type 0
  PlainAt none = Unit
  PlainAt (some metadata) = Plain metadata

  metadata_at-Plain :
      (all : Option (List Fields)) (i : ℕ) → AllPlain all → PlainAt (metadata_at all i)
  unfolding PlainAt
  metadata_at-Plain none i h = tt
  metadata_at-Plain (some []) i h = tt
  metadata_at-Plain (some (m ∷ ms)) zero h = h.0
  metadata_at-Plain (some (m ∷ ms)) (suc i) h = metadata_at-Plain (some ms) i h.1

  payload_lem :
      (metadata : Option Fields) (i : ℕ) (content : Text)
      → PlainAt metadata
      → (get (text "text") (with_metadata metadata (base_payload user_id document_id i content))
          ≡ some (str content))
        × (get
              (text "document_id")
              (with_metadata metadata (base_payload user_id document_id i content))
            ≡ some (str document_id))
  unfolding PlainAt get text text_eq
  payload_lem none i content h = (refl, refl)
  payload_lem (some m) i content h = (
    get-update (text "text") (base_payload user_id document_id i content) m h.0,
    get-update (text "document_id") (base_payload user_id document_id i content) m h.1,
  )

  pub points-Reads :
      {V : Type 0} (metadata : Option (List Fields)) (i : ℕ) (ids : List Text) (vectors : List V)
      (texts : List Text)
      → AllPlain metadata
      → length ids ≡ length vectors
      → length ids ≡ length texts
      → Reads document_id ids texts
          (map (λ p. found_of (scored p)) (points user_id document_id metadata i ids vectors texts))
  unfolding points found_of
  points-Reads metadata i [] [] [] h p q = record { names = refl; contents = refl; documents = tt }
  points-Reads metadata i [] [] (t ∷ ts) h p q = absurd (omega arith)
  points-Reads metadata i [] (v ∷ vs) ts h p q = absurd (omega arith)
  points-Reads metadata i (c ∷ cs) [] ts h p q = absurd (omega arith)
  points-Reads metadata i (c ∷ cs) (v ∷ vs) [] h p q = absurd (omega arith)
  points-Reads metadata i (c ∷ cs) (v ∷ vs) (t ∷ ts) h p q =
      let (content, document) =
        payload_lem (metadata_at metadata i) i t (metadata_at-Plain metadata i h) in
      Reads-cons c t cs ts _ _ refl (rw (content) refl) document
        (points-Reads metadata (suc i) cs vs ts h (omega arith) (omega arith))

  es_document_lem :
      (metadata : Option Fields) (i : ℕ) (content : Text)
      → (get (text "text") (es_document user_id document_id i content metadata)
          ≡ some (str content))
        × (get (text "document_id") (es_document user_id document_id i content metadata)
            ≡ some (str document_id))
  unfolding get text text_eq
  es_document_lem none i content = (refl, refl)
  es_document_lem (some m) i content = (refl, refl)

  operations-Reads :
      (metadata : Option (List Fields)) (i : ℕ) (ids texts : List Text)
      → length ids ≡ length texts
      → (found : List (Found F)) × (read_hits
            (map es_hit (operations user_id document_id metadata i ids texts))
          ≡ ok found)
        × Reads document_id ids texts found
  unfolding operations read_hits
  operations-Reads metadata i [] [] p =
      ([], refl, record { names = refl; contents = refl; documents = tt })
  operations-Reads metadata i [] (t ∷ ts) p = absurd (omega arith)
  operations-Reads metadata i (c ∷ cs) [] p = absurd (omega arith)
  operations-Reads metadata i (c ∷ cs) (t ∷ ts) p =
      let (content, document) = es_document_lem (metadata_at metadata i) i t in
      let (rest, read, reads) = operations-Reads metadata (suc i) cs ts (omega arith) in
      let x : Found F = record {
        chunk_id = c;
        content = str t;
        document_id = some (str document_id);
        score = score;
        filename =
            get (text "filename") (es_document user_id document_id i t (metadata_at metadata i));
      } in
      (
        x ∷ rest,
        rw (content, document, read) refl,
        Reads-cons c t cs ts x rest refl refl refl reads,
      )

  -- What is stored of a document is what the searches read: the points of its chunks, if there are as
  -- many vectors and texts as ids and no metadata names `text` or `document_id`, read as its chunks
  -- with their ids, texts and document; so do the documents of the index, whatever the metadata is,
  -- without an error.
  pub stored-Reads :
      {V : Type 0} (metadata : Option (List Fields)) (ids : List Text) (vectors : List V)
      (texts : List Text)
      → length ids ≡ length vectors
      → length ids ≡ length texts
      → (AllPlain metadata
          → Reads document_id ids texts (
              map
                (λ p. found_of (scored p))
                (points user_id document_id metadata 0 ids vectors texts)))
        × (found : List (Found F)) × (read_hits
              (map es_hit (operations user_id document_id metadata 0 ids texts))
            ≡ ok found)
        × Reads document_id ids texts found
  stored-Reads metadata ids vectors texts p q =
      let (found, read, reads) = operations-Reads metadata 0 ids texts q in
      (λ h. points-Reads metadata 0 ids vectors texts h p q, found, read, reads)
