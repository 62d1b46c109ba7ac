-- ===== src/Stores.antt =====
-- The stores of chunks: app/vector_store and app/search. This file has what the clients of both
-- share: a call that may have to be awaited, and errors as RetrievalError.
pub mod Qdrant
pub mod Elastic
pub mod Compartments
pub mod Isolation
pub mod Traffic
pub mod Blocking
pub mod Reading
pub mod Failures
use multimodal_rag.Prelude.{◌++◌, take}
use multimodal_rag.Prelude.Text.{Text, text}
use multimodal_rag.Errors.{Exception, retrieval, other}
use multimodal_rag.Exec.{Exec, throw, fail, catch, continue}

-- What calling a method of a client gives back: a plain value, or a coroutine that acts when it is
-- awaited.
pub data Called (W A : Type 0) : Type 0 where
  value : A → Called W A
  awaitable : Exec W A → Called W A

module _ {W A : Type 0} where
  -- `await x`: a plain value is not awaitable, which is a `TypeError`
  abbrev pub await : Called W A → Exec W A
  await (value a) = throw other
  await (awaitable m) = m

  -- `await client.method(…)`
  abbrev pub awaited : Exec W (Called W A) → Exec W A
  awaited m w = continue (m w) await

  abbrev pub retrieval_error : Exception → Exec W A
  retrieval_error e = fail retrieval

  -- `try: m` / `except Exception as e: raise RetrievalError() from e`
  abbrev pub wrapped : Exec W A → Exec W A
  wrapped m = catch m retrieval_error

-- `hexdigest` is the hexadecimal SHA-256 of a text.
unfoldable pub collection_name_for_user : (Text → Text) → Text → Text
unfolding text
collection_name_for_user hexdigest user_id = text "user_" ++ take 32 (hexdigest user_id)

unfoldable pub index_name_for_user : (Text → Text) → Text → Text
unfolding text
index_name_for_user hexdigest user_id = text "es_user_" ++ take 32 (hexdigest user_id)
