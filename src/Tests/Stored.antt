-- ===== src/Tests/Stored.antt =====
-- The relay over stores that are sets of ids in collections.
use multimodal_rag.Prelude.{◌≡◌, refl, Bool, true, false, [], ◌∷◌, if◌then◌else◌}
use multimodal_rag.Prelude.Text.{Text, text, text_eq, member}
use multimodal_rag.Exec.{ok}
use multimodal_rag.Documents.{upsert_chunk, delete_chunks}
use multimodal_rag.Outbox.{
  Targets, Call, qdrant_upsert, es_index, qdrant_delete, es_delete, collection, handle,
}
use multimodal_rag.Outbox.Stores.{target, Holdings}
use multimodal_rag.Tests.Outbox.{row, tables}

abbrev Sets : Type 0
Sets = Text → Text → Bool

abbrev set_at : Text → (Text → Bool → Bool) → Sets → Sets
set_at c change w n i = if text_eq c n then change i (w n i) else w n i

abbrev sent_to : Call → Sets → Sets
sent_to (qdrant_upsert c i v m) = set_at c (λ j b. if text_eq i j then true else b)
sent_to (es_index c i t n) = set_at c (λ j b. if text_eq i j then true else b)
sent_to (qdrant_delete c ids) = set_at c (λ j b. if member j ids then false else b)
sent_to (es_delete c i) = set_at c (λ j b. if text_eq i j then false else b)

abbrev sets : Targets Sets
sets = record {
  send = λ c w. (ok tt, sent_to c w);
  encode = λ t w. (ok [], w);
  show_json = λ j. [];
  uuid5 = λ d i. d;
}

sent :
    (c : Call) (name id : Text) (w : Sets)
    → text_eq (target c) name ≡ false
    → sent_to c w name id ≡ w name id
sent (qdrant_upsert c i v m) name id w h = rw h refl
sent (es_index c i t n) name id w h = rw h refl
sent (qdrant_delete c ids) name id w h = rw h refl
sent (es_delete c i) name id w h = rw h refl

abbrev holdings : Holdings sets
holdings = record { has = λ name id w. w name id; sent = sent; encoded = λ t name id w. refl }

-- the chunk of an upload without metadata stays where it is
kept_chunk :
    (handle sets tables.documents delete_chunks
        (row 1)
        (handle sets tables.documents upsert_chunk (row 0) (λ n i. false)).1).1
      (text "user_docs_default")
      (30 ∷ [])
    ≡ true
unfolding handle collection text text_eq
kept_chunk = refl
