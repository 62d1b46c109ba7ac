-- ===== src/Ingest/Raises.antt =====
-- The exceptions of run_ingest_pipeline of app/pipelines/ingest_pipeline.py.
use multimodal_rag.Prelude.{
  ℕ, suc, ◌≡◌, refl, ap, sym, ◌∙◌, true, false, Option, none, some, List, [], ◌∷◌, length, ◌⊎◌, inl,
  inr, leb, ==_refl,
}
use multimodal_rag.Prelude.Text.{Text}
use multimodal_rag.Errors.{Exception, app, parser, embedding, retrieval, value_error}
use multimodal_rag.Exec.{Exec, Result, ok, raised, continue, recover, ok-pair}
use multimodal_rag.Chunker.{Encoding, chunks_of, chunk_text}
use multimodal_rag.Stores.Qdrant.{upsert_chunks, same_lengths}
use multimodal_rag.Stores.Elastic.{index_chunks}
use multimodal_rag.Stores.Failures.{upsert_chunks-IsClean, index_chunks-IsClean, Clean}
use multimodal_rag.Ingest.{
  ids_from, Encoder, Parser, Tools, Upload, parser_for, embed_texts, embedding_error, write_chunks,
  metadata_list, run_ingest_pipeline, chunks_or_raise, parser_or_raise, lifted,
}
use multimodal_rag.Ingest.Parsed.{parser_for-IsParsed, IsParsed}
use multimodal_rag.Ingest.Parsers.{ParsedDocument}

length-ids_from :
    (uuid5 : Text → Text → Text) (document_id : Text) (i : ℕ) (chunks : List Text)
    → length (ids_from uuid5 document_id i chunks) ≡ length chunks
unfolding ids_from
length-ids_from uuid5 document_id i [] = refl
length-ids_from uuid5 document_id i (c ∷ cs) = ap suc (length-ids_from uuid5 document_id (suc i) cs)

-- a ParserError, an EmbeddingError or a RetrievalError, or the ValueError of a tokenizer that refuses
-- some text
abbrev pub Documented : Encoding → Exception → Type 0
Documented encoding e =
    ((m : Text) × (e ≡ app (parser m)))
    ⊎ (e ≡ app embedding)
    ⊎ (e ≡ app retrieval)
    ⊎ ((content : Text) × (encoding.encode content ≡ none) × (e ≡ value_error))

abbrev pub AsDocumented : {A : Type 0} → Encoding → Result A → Type 0
AsDocumented encoding (ok a) = Unit {0}
AsDocumented encoding (raised e) = Documented encoding e

continue-AsDocumented :
    {W A B : Type 0} (k : Encoding) (r : Result A × W) (f : A → Exec W B)
    → AsDocumented k r.0
    → ((a : A) (t : W) → r ≡ (ok a, t) → AsDocumented k (f a t).0)
    → AsDocumented k (continue r f).0
continue-AsDocumented k (ok a, w) f h g = g a w refl
continue-AsDocumented k (raised e, w) f h g = h

Clean-AsDocumented : {A : Type 0} (k : Encoding) (r : Result A) → Clean r → AsDocumented k r
Clean-AsDocumented k (ok a) h = tt
Clean-AsDocumented k (raised e) h = inr (inr (inl h))

IsParsed-AsDocumented : (k : Encoding) (r : Result ParsedDocument) → IsParsed r → AsDocumented k r
IsParsed-AsDocumented k (ok d) h = tt
IsParsed-AsDocumented k (raised e) h = inl h

-- The model gives one vector for each text.
pub record IsEncoder {W V : Type 0} (encode : Encoder W V) : Type 0 where
  pub counts :
      (ts : List Text) (vs : List V) (w t : W) → encode ts w ≡ (ok vs, t) → length vs ≡ length ts

module _ {W V : Type 0} (encode : Encoder W V) where
  recover-AsDocumented :
      (k : Encoding) (r : Result (List V) × W)
      → AsDocumented k (recover r (embedding_error encode)).0
  recover-AsDocumented k (ok vs, w) = tt
  recover-AsDocumented k (raised e, w) = inr (inl refl)

  embed_texts-AsDocumented :
      (k : Encoding) (ts : List Text) (w : W) → AsDocumented k (embed_texts encode ts w).0
  unfolding embed_texts
  embed_texts-AsDocumented k [] w = tt
  embed_texts-AsDocumented k (t ∷ ts) w = recover-AsDocumented k (encode (t ∷ ts) w)

  recover_counts :
      (r : Result (List V) × W) (n : ℕ) (vs : List V) (t : W)
      → ((us : List V) (u : W) → r ≡ (ok us, u) → length us ≡ n)
      → recover r (embedding_error encode) ≡ (ok vs, t)
      → length vs ≡ n
  recover_counts (ok us, u) n vs t h e =
      sym (ap (λ l. length l) (ok-pair us vs u t e).0) ∙ h us u refl
  recover_counts (raised x, u) n vs t h e = cc

  length-embed_texts :
      (law : IsEncoder encode) (ts : List Text) (vs : List V) (w t : W)
      → embed_texts encode ts w ≡ (ok vs, t)
      → length vs ≡ length ts
  unfolding embed_texts
  length-embed_texts law [] vs w t h = ap (λ l. length l) (sym (ok-pair [] vs w t h).0)
  length-embed_texts law (x ∷ xs) vs w t h =
      recover_counts (encode (x ∷ xs) w) (suc (length xs)) vs t
        (λ us u e. law.counts (x ∷ xs) us w u e) h

module _ {W F V : Type 0} (tools : Tools W F V) (upload : Upload) where
  -- the ids of the chunks of the upload
  abbrev chunk_ids : List Text → List Text
  chunk_ids chunks = ids_from tools.uuid5 upload.document_id 0 chunks

  write_chunks-AsDocumented :
      (chunks : List Text) (vectors : List V) (w : W)
      → length vectors ≡ length chunks
      → AsDocumented tools.encoding (write_chunks tools upload chunks vectors w).0
  unfolding write_chunks
  write_chunks-AsDocumented chunks vectors w h =
      let ids = chunk_ids chunks in
      let metadata = some (metadata_list tools upload chunks) in
      let n : length ids ≡ length chunks =
        length-ids_from tools.uuid5 upload.document_id 0 chunks in
      let same : same_lengths ids vectors chunks ≡ true = rw (n, h, ==_refl (length chunks)) refl in
      continue-AsDocumented tools.encoding
        (upsert_chunks tools.hexdigest tools.qdrant tools.config upload.user_id upload.document_id
          ids vectors chunks metadata w)
        _
        (Clean-AsDocumented tools.encoding _ (
          (upsert_chunks-IsClean tools.hexdigest tools.qdrant tools.es tools.config upload.user_id
              upload.document_id ids vectors chunks metadata same).at
            w))
        (λ u t e.
          continue-AsDocumented tools.encoding
            (index_chunks tools.hexdigest tools.es upload.user_id upload.document_id ids chunks
              metadata t)
            _
            (Clean-AsDocumented tools.encoding _ (
              (index_chunks-IsClean tools.hexdigest tools.qdrant tools.es upload.user_id
                  upload.document_id ids chunks metadata).at
                t))
            (λ v x e'. tt))

  parser_or_raise-AsDocumented :
      (o : Option Parser) (w : W) → AsDocumented tools.encoding (parser_or_raise tools upload o w).0
  parser_or_raise-AsDocumented none w = inl (_, refl)
  parser_or_raise-AsDocumented (some p) w = tt

  parser_or_raise-some :
      (o : Option Parser) (p : Parser) (w t : W)
      → parser_or_raise tools upload o w ≡ (ok p, t)
      → o ≡ some p
  parser_or_raise-some none p w t h = cc
  parser_or_raise-some (some q) p w t h = ap some (ok-pair q p w t h).0

  chunks_or_raise-AsDocumented :
      (split : List Text) (w : W)
      → AsDocumented tools.encoding (chunks_or_raise tools upload split w).0
  chunks_or_raise-AsDocumented [] w = inl (_, refl)
  chunks_or_raise-AsDocumented (c ∷ cs) w = tt

  chunks_of-AsDocumented :
      (size repeated : ℕ) (content : Text) (o : Option (List ℕ))
      → tools.encoding.encode content ≡ o
      → AsDocumented tools.encoding (chunks_of tools.encoding size repeated o)
  chunks_of-AsDocumented size repeated content none h = inr (inr (inr (content, h, refl)))
  chunks_of-AsDocumented size repeated content (some tokens) h = tt

  chunk_text-AsDocumented :
      (content : Text)
      → leb tools.chunk_size tools.chunk_overlap ≡ false
      → AsDocumented tools.encoding
          (chunk_text tools.encoding tools.chunk_size tools.chunk_overlap content none none)
  unfolding chunk_text
  chunk_text-AsDocumented content h = rw h (
      chunks_of-AsDocumented tools.chunk_size tools.chunk_overlap content
        (tools.encoding.encode content) refl)

  -- Whatever the libraries, the model and the clients answer or raise, the pipeline returns, or raises
  -- a ParserError, an EmbeddingError or a RetrievalError, as its docstring says, or a ValueError
  -- where the tokenizer refuses a text, if the setting for the overlap is below the one for the size
  -- of a chunk and the model gives one vector for each text.
  pub run_ingest_pipeline-AsDocumented :
      leb tools.chunk_size tools.chunk_overlap ≡ false
      → IsEncoder tools.encode
      → (w : W) → AsDocumented tools.encoding (run_ingest_pipeline tools upload w).0
  unfolding run_ingest_pipeline
  run_ingest_pipeline-AsDocumented sizes law w =
      let found = parser_for tools.libraries upload.file_type in
      continue-AsDocumented tools.encoding (parser_or_raise tools upload found w) _
        (parser_or_raise-AsDocumented found w)
        (λ parse w1 e1.
          continue-AsDocumented tools.encoding (lifted tools upload (parse upload.file_bytes) w1) _
            (IsParsed-AsDocumented tools.encoding _ (
              parser_for-IsParsed tools.libraries upload.file_type parse upload.file_bytes
                (parser_or_raise-some found parse w w1 e1)))
            (λ parsed w2 e2.
              continue-AsDocumented tools.encoding
                (lifted tools upload
                  (chunk_text tools.encoding tools.chunk_size tools.chunk_overlap parsed.content
                    none none)
                  w2)
                _ (chunk_text-AsDocumented parsed.content sizes)
                (λ split w3 e3.
                  continue-AsDocumented tools.encoding (chunks_or_raise tools upload split w3) _
                    (chunks_or_raise-AsDocumented split w3)
                    (λ chunks w4 e4.
                      continue-AsDocumented tools.encoding (embed_texts tools.encode chunks w4) _
                        (embed_texts-AsDocumented tools.encode tools.encoding chunks w4)
                        (λ vectors w5 e5.
                          write_chunks-AsDocumented chunks vectors w5
                            (length-embed_texts tools.encode law chunks vectors w4 w5 e5))))))
