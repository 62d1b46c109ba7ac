-- ===== src/Tests/Stores.antt =====
-- The stores of chunks, with a store that counts the points of each collection and index.
use multimodal_rag.Prelude.{
  ℕ, ◌+◌, ◌≡◌, ◌≢◌, refl, ap, true, false, none, some, List, [], ◌∷◌, map, length, arith,
  if◌then◌else◌,
}
use multimodal_rag.Prelude.Text.{Text, text, text_eq, text_eq_iff}
use multimodal_rag.Errors.{app, retrieval}
use multimodal_rag.Errors.Handlers.{respond, unexpected}
use multimodal_rag.Exec.{ok, raised, Exec}
use multimodal_rag.Json.{Fields, str, field, end, get}
use multimodal_rag.Pipeline.{run_query_pipeline, default_settings}
use multimodal_rag.Retrieval
use multimodal_rag.Stores.{Called, value, awaitable}
use multimodal_rag.Stores.Qdrant.{
  QdrantClient, Point, ScoredPoint, CollectionConfig, Found, points, found_of, dense_search,
}
use multimodal_rag.Stores.Qdrant
use multimodal_rag.Stores.Elastic
use multimodal_rag.Stores.Elastic.{
  EsClient, EsHit, IndexOperation, answer, missing, failed, operations, read_hits, bm25_search,
}
use multimodal_rag.Stores.Compartments.{Within-still}
use multimodal_rag.Stores.Isolation.{IsDivided, IsIndexed}
use multimodal_rag.Stores.Traffic.{
  Write, upsert, index, unindex, remove, perform_all, search-perform_all, digest,
}
use multimodal_rag.Stores.Reading.{AllPlain, Reads, scored, es_hit, stored-Reads}
use multimodal_rag.Stores.Blocking.{IsSynchronous, searches_of, run_query_pipeline-synchronous}
use multimodal_rag.Tests.Samples.{scaled, hit, bm25, stages}

-- how many points each collection or index holds
abbrev pub Count : Type 0
Count = Text → ℕ

abbrev add : Text → ℕ → Count → Count
add c n w d = if text_eq d c then w d + n else w d

add-other : (c d : Text) (n : ℕ) (w : Count) → d ≢ c → add c n w d ≡ w d
add-other c d n w ne = ground (arith, text_eq_iff d c)

add-same : (c d : Text) (n : ℕ) (v w : Count) → v d ≡ w d → add c n v d ≡ add c n w d
add-same c d n v w e = ground arith

abbrev later : {A : Type 0} → Exec Count A → Exec Count (Called Count A)
later m w = (ok (awaitable m), w)

abbrev pub qdrant : QdrantClient Count ℕ ℕ
qdrant = record {
  collection_exists = λ c. later (λ w. (ok true, w));
  create_collection = λ c config. later (λ w. (ok tt, w));
  upsert = λ c ps. later (λ w. (ok tt, add c (length ps) w));
  delete = λ c document_id. later (λ w. (ok tt, w));
  query_points =
      λ c v k. later (λ w. (ok (record { id = []; score = w c; payload = none } ∷ []), w));
}

qdrant-IsDivided : IsDivided (λ w. w) qdrant
qdrant-IsDivided = record {
  exists = λ c. Within-still (λ w. w) c (ok true);
  create = λ c config. Within-still (λ w. w) c (ok tt);
  upsert = λ c ps. record {
    others = λ w d ne. add-other c d (length ps) w ne;
    same = λ v w e. refl;
    after = λ v w e. add-same c c (length ps) v w e;
  };
  delete = λ c document_id. Within-still (λ w. w) c (ok tt);
  query = λ c v k. record {
    others = λ w d ne. refl;
    same = λ u w e. ap (λ n. ok (record { id = []; score = n; payload = none } ∷ [])) e;
    after = λ u w e. e;
  };
}

abbrev pub es : EsClient Count ℕ
es = record {
  exists = λ c w. (answer true, w);
  create = λ c w. (answer tt, w);
  bulk = λ c ops w. (answer false, add c (length ops) w);
  delete_by_query = λ c document_id w. (answer tt, w);
  search = λ c q k w. (answer (record { id = []; score = w c; source = end } ∷ []), w);
}

es-IsIndexed : IsIndexed (λ w. w) es
es-IsIndexed = record {
  exists = λ c. record { others = λ w d ne. refl; same = λ v w e. refl; after = λ v w e. e };
  create = λ c. record { others = λ w d ne. refl; same = λ v w e. refl; after = λ v w e. e };
  bulk = λ c ops. record {
    others = λ w d ne. add-other c d (length ops) w ne;
    same = λ v w e. refl;
    after = λ v w e. add-same c c (length ops) v w e;
  };
  delete = λ c d. record { others = λ w d ne. refl; same = λ v w e. refl; after = λ v w e. e };
  search = λ c q k. record {
    others = λ w d ne. refl;
    same = λ u w e. ap (λ n. answer (record { id = []; score = n; source = end } ∷ [])) e;
    after = λ u w e. e;
  };
}

abbrev pub config : CollectionConfig
config = record { vector_size = 1024; hnsw_ef_construct = 200; hnsw_m = 16 }

-- the hash of these runs leaves an id as it is
abbrev pub plainly : Text → Text
plainly s = s

abbrev writes : List (Write ℕ)
writes =
    upsert (text "bob") config (text "d") (text "c" ∷ []) (7 ∷ []) (text "some text" ∷ []) none
    ∷ index (text "bob") (text "d") (text "c" ∷ []) (text "some text" ∷ []) none
    ∷ unindex (text "bob") (text "d")
    ∷ remove (text "bob") (text "d")
    ∷ []

bob-ne-ann : digest plainly (text "bob") ≢ digest plainly (text "ann")
unfolding text
bob-ne-ann h = ground arith

search-perform_all_example :
    ((dense_search plainly qdrant
        (text "ann")
        7
        10
        (perform_all plainly qdrant es writes (λ c. 0))).0
      ≡ (dense_search plainly qdrant (text "ann") 7 10 (λ c. 0)).0)
    × ((bm25_search plainly es
          (text "ann")
          (text "q")
          10
          (perform_all plainly qdrant es writes (λ c. 0))).0
        ≡ (bm25_search plainly es (text "ann") (text "q") 10 (λ c. 0)).0)
search-perform_all_example =
    search-perform_all plainly qdrant es (λ w. w) qdrant-IsDivided es-IsIndexed (text "ann") writes
      (λ c. 0) 7 (text "q") 10 (bob-ne-ann, (bob-ne-ann, (bob-ne-ann, (bob-ne-ann, tt))))

abbrev vectors : List ℕ
vectors = 7 ∷ 8 ∷ []

abbrev score : ℕ
score = 1

stored-Reads_example :
    (AllPlain none
      → Reads (text "d") (text "a" ∷ text "b" ∷ []) (text "one" ∷ text "two" ∷ []) (
          map
            (λ p. found_of (scored score (text "ann") (text "d") p))
            (points
              (text "ann")
              (text "d")
              none
              0
              (text "a" ∷ text "b" ∷ [])
              vectors
              (text "one" ∷ text "two" ∷ []))))
    × (found : List (Found ℕ)) × (read_hits (
          map (es_hit score (text "ann") (text "d")) (
            operations
              (text "ann")
              (text "d")
              none
              0
              (text "a" ∷ text "b" ∷ [])
              (text "one" ∷ text "two" ∷ [])))
        ≡ ok found)
    × Reads (text "d") (text "a" ∷ text "b" ∷ []) (text "one" ∷ text "two" ∷ []) found
stored-Reads_example =
    stored-Reads score (text "ann") (text "d") none (text "a" ∷ text "b" ∷ []) vectors
      (text "one" ∷ text "two" ∷ []) refl refl

-- metadata of an upload that names `document_id` takes its chunks away from the document
abbrev moved : Fields
moved = field (text "document_id") (str (text "other")) end

metadata_override :
    map
      (λ p. get (text "document_id") p.payload)
      (points {V = ℕ}
        (text "ann")
        (text "d")
        (some (moved ∷ []))
        0
        (text "a" ∷ [])
        (7 ∷ [])
        (text "one" ∷ []))
    ≡ some (str (text "other")) ∷ []
unfolding points text text_eq get
metadata_override = refl

-- the synchronous client, which answers at once
abbrev blocking : QdrantClient ℕ ℕ ℕ
blocking = record {
  collection_exists = λ c w. (ok (value true), w);
  create_collection = λ c config w. (ok (value tt), w);
  upsert = λ c ps w. (ok (value tt), w);
  delete = λ c document_id w. (ok (value tt), w);
  query_points = λ c v k w. (ok (value []), w);
}

blocking-IsSynchronous : IsSynchronous blocking
blocking-IsSynchronous = record { exists = λ c w. tt }

run_query_pipeline-synchronous_example :
    ((run_query_pipeline
        (record stages {
          hybrid_retrieve =
              Retrieval.hybrid_retrieve scaled
                (searches_of plainly blocking
                  (λ q w. (ok 7, w))
                  (λ u q k w. (ok bm25, w))
                  (λ x. hit x.chunk_id []))
                60
                100
                (text "ann");
        })
        default_settings
        (text "q")
        []
        0).0
      ≡ raised (app retrieval))
    × (respond (app retrieval) ≡ unexpected)
run_query_pipeline-synchronous_example =
    run_query_pipeline-synchronous plainly blocking scaled blocking-IsSynchronous stages
      default_settings (λ q w. (ok 7, w)) (λ u q k w. (ok bm25, w)) (λ x. hit x.chunk_id []) 60 100
      (text "ann") (λ w. (w, w, refl, tt)) (λ q w. (7, w, refl, tt)) (λ q k w. (bm25, w, refl, tt))
      (text "q") [] 0
