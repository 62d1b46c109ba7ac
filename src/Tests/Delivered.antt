-- ===== src/Tests/Delivered.antt =====
-- A run of the relay over stores that answer.
use multimodal_rag.Prelude.{ℕ, suc, ◌<◌, ◌≡◌, refl, [], ◌∷◌, map, tally, arith}
use multimodal_rag.Prelude.Sort.{insert_desc, sort_desc}
use multimodal_rag.Prelude.Text.{Text, text, text_eq}
use multimodal_rag.Exec.{ok}
use multimodal_rag.Json.{get}
use multimodal_rag.Documents.{ready}
use multimodal_rag.Outbox.{
  Targets, handle, collection, maybe_mark_document_ready, batch, is_pending, relay_outbox_batch,
}
use multimodal_rag.Outbox.Counting.{waiting}
use multimodal_rag.Outbox.Marks.{named, NoneDead, NotProcessing, OnlyReady}
use multimodal_rag.Outbox.Delivered.{relay_outbox_batch-delivers}
use multimodal_rag.Tests.Outbox.{tables, tables-IsSound}

abbrev answering : Targets ℕ
answering = record {
  send = λ c w. (ok tt, suc w);
  encode = λ t w. (ok (t ∷ []), w);
  show_json = λ j. [];
  uuid5 = λ d i. d;
}

relay_outbox_batch-delivers_example :
    (tally
        (λ r. is_pending r.status)
        (relay_outbox_batch answering (record { tables = tables; world = 0 })).tables.outbox
      ≡ 0)
    × ((document_id : Text)
        → NoneDead document_id tables.outbox
        → 0 < waiting (named document_id) tables.outbox
        → NotProcessing document_id
            (relay_outbox_batch answering (record { tables = tables; world = 0 })).tables.documents)
    × OnlyReady tables.documents
        (relay_outbox_batch answering (record { tables = tables; world = 0 })).tables.documents
relay_outbox_batch-delivers_example =
    relay_outbox_batch-delivers answering
      (record { sends = λ c w. (suc w, refl); encodes = λ t w. (t ∷ [], w, refl) })
      (record { tables = tables; world = 0 }) tables-IsSound.apart (λ p. tt, (λ p. tt, tt))
      (omega arith)

delivered_status :
    map
      (λ d. d.status)
      (relay_outbox_batch answering (record { tables = tables; world = 0 })).tables.documents
    ≡ ready ∷ []
unfolding relay_outbox_batch handle collection maybe_mark_document_ready batch insert_desc sort_desc
    text text_eq get
delivered_status = refl
