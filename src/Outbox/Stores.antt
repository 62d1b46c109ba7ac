-- ===== src/Outbox/Stores.antt =====
-- Where the relay writes chunks and where it deletes them.
use multimodal_rag.Prelude.{◌≡◌, Bool, false}
use multimodal_rag.Prelude.Text.{Text, text_eq}
use multimodal_rag.Outbox.{Targets, Call, qdrant_upsert, es_index, qdrant_delete, es_delete}

-- the collection or the index of a call
abbrev pub target : Call → Text
target (qdrant_upsert c i v m) = c
target (es_index c i t n) = c
target (qdrant_delete c ids) = c
target (es_delete c i) = c

-- Whether an id is in a collection or an index. A call changes only the one that it names, and the
-- embedding model changes none.
pub record Holdings {W : Type 0} (targets : Targets W) : Type 0 where
  pub has : Text → Text → W → Bool
  pub sent :
      (c : Call) (name id : Text) (w : W)
      → text_eq (target c) name ≡ false
      → has name id (targets.send c w).1 ≡ has name id w
  pub encoded : (t name id : Text) (w : W) → has name id (targets.encode t w).1 ≡ has name id w

module _ {W : Type 0} (targets : Targets W) (holdings : Holdings targets) (name id : Text) where
  abbrev there : W → Bool
  there = holdings.has name id
