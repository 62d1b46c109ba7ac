-- ===== src/Documents/Tenants.antt =====
-- What the requests of other users do to the documents of one.
use multimodal_rag.Prelude.{
  ℕ, ◌≡◌, refl, ap, sym, ◌∙◌, true, false, Option-cases, Option, List, [], ◌∷◌, ◌++◌, keep,
  keep-append, append-nil, length, ◌⊎◌, head?, subst, All, inl, inr, leb,
}
use multimodal_rag.Prelude.Sort.{sort_desc}
use multimodal_rag.Prelude.Text.{Text, text_eq}
use multimodal_rag.Errors.{Exception}
use multimodal_rag.Exec.{Result, ok, raised, pure, continue}
use multimodal_rag.Json.{Fields}
use multimodal_rag.FileValidation.{Sniffer, FileType, validate_file_size, detect_file_type}
use multimodal_rag.Documents.{
  Document, DocumentStatus, processing, ready, deleting, deleted, Tables, Fresh, Commit, fails,
  refresh_fails, goes_through, add_all, chunk_rows, placeholder_chunks, new_document,
  ingest_document, list_documents, get_document, owned, queue_deletion, delete_unless_deleted,
  delete_document,
}
use multimodal_rag.Documents.Routes.{
  Loads, metadata_of, filename_or, ingest_route, list_route, delete_route,
}
use multimodal_rag.Documents.Owners.{
  mine, OneOwner, OneOwner-mark, OneOwner-snoc, marks_own, mine-mark,
}

-- what a user asks of the routes, with the new ids and the clock of the call
pub data DocumentRequest : Type 0 where
  upload : Fresh → Commit → Option Text → List ℕ → Option Text → DocumentRequest
  removal : Text → ℕ → Text → DocumentRequest
  listing : DocumentRequest

-- what a request of another user keeps
record Keeps (v : Text) (t u : Tables) : Type 0 where
  one_owner : OneOwner u.documents
  same : mine v u.documents ≡ mine v t.documents

continue-state :
    {A B : Type 0} (r : Result A × Tables) (g : A → B) → (continue r (λ a. pure (g a))).1 ≡ r.1
continue-state (ok a, s) g = refl
continue-state (raised e, s) g = refl

removal-Keeps :
    (v u row_id document_id : Text) (now : ℕ) (t : Tables)
    → text_eq u v ≡ false
    → OneOwner t.documents
    → Keeps v t (delete_document row_id now u document_id t).1
unfolding delete_document get_document
removal-Keeps v u row_id document_id now t ne one =
    elim (Option-cases (head? (keep (owned u document_id) t.documents))) [
      | inl e ↦ rw e (record { one_owner = one; same = refl })
      | inr (d, e) ↦ rw e (go d d.status (marks_own u document_id t.documents d one e))
    ]
  where
    queued :
        (d : Document)
        → All (λ x. text_eq x.id d.id ≡ true → x.user_id ≡ u) t.documents
        → Keeps v t (queue_deletion row_id now u d t).1
    queued d h = record {
      one_owner = OneOwner-mark d.id t.documents one;
      same = mine-mark u v d.id t.documents ne h;
    }

    go :
        (d : Document) (s : DocumentStatus)
        → All (λ x. text_eq x.id d.id ≡ true → x.user_id ≡ u) t.documents
        → Keeps v t (delete_unless_deleted s row_id now u d t).1
    go d processing h = queued d h
    go d ready h = queued d h
    go d deleting h = record { one_owner = one; same = refl }
    go d deleted h = record { one_owner = one; same = refl }

mine-snoc :
    (v : Text) (xs : List Document) (d : Document)
    → text_eq d.user_id v ≡ false
    → mine v (xs ++ d ∷ []) ≡ mine v xs
mine-snoc v xs d e =
    keep-append (λ d. text_eq d.user_id v) xs (d ∷ []) ∙ rw e (append-nil (mine v xs))

module _ (sniffer : Sniffer) (max_mb : ℕ) (fresh : Fresh) (u filename : Text) (file_bytes : List ℕ)
    (doc_metadata : Option Fields) where
  ingestion-Keeps :
      (v : Text) (commits : Commit) (t : Tables)
      → text_eq u v ≡ false
      → OneOwner t.documents
      → All (λ d. text_eq d.id fresh.document_id ≡ false) t.documents
      → Keeps v t
          (ingest_document sniffer max_mb fresh commits u filename file_bytes doc_metadata t).1
  unfolding ingest_document
  ingestion-Keeps v commits t ne one new =
      go (validate_file_size max_mb file_bytes) (detect_file_type sniffer file_bytes) commits refl
        refl refl
    where
      still : Keeps v t t
      still = record { one_owner = one; same = refl }

      added :
          (b : FileType)
          → Keeps v t (
              add_all
                (new_document fresh u filename file_bytes doc_metadata b)
                (chunk_rows fresh u doc_metadata 0 placeholder_chunks)
                t)
      added b = record {
        one_owner =
            OneOwner-snoc t.documents (new_document fresh u filename file_bytes doc_metadata b) one
              new;
        same = mine-snoc v t.documents (new_document fresh u filename file_bytes doc_metadata b) ne;
      }

      go :
          (a : Result (Unit {0})) (b : Result FileType) (c : Commit)
          → validate_file_size max_mb file_bytes ≡ a
          → detect_file_type sniffer file_bytes ≡ b
          → commits ≡ c
          → Keeps v t
              (ingest_document sniffer max_mb fresh commits u filename file_bytes doc_metadata t).1
      go (raised e) b c p q r = rw p still
      go (ok a) (raised e) c p q r = rw (p, q) still
      go (ok a) (ok b) fails p q r = rw (p, q, r) still
      go (ok a) (ok b) refresh_fails p q r = rw (p, q, r) (added b)
      go (ok a) (ok b) goes_through p q r = rw (p, q, r) (added b)

Result-cases :
    {A : Type 0} (r : Result A) → ((a : A) × (r ≡ ok a)) ⊎ ((e : Exception) × (r ≡ raised e))
Result-cases (ok a) = inl (a, refl)
Result-cases (raised e) = inr (e, refl)

module _ (loads : Loads) (sniffer : Sniffer) (max_mb : ℕ) where
  -- a request, whatever comes of it
  unfoldable pub serve : Text → DocumentRequest → Tables → Tables
  serve user_id (upload fresh commits filename file_bytes metadata) t =
      (ingest_route loads sniffer max_mb fresh commits user_id filename file_bytes metadata t).1
  serve user_id (removal row_id now document_id) t =
      (delete_route row_id now user_id document_id t).1
  serve user_id listing t = (list_route user_id t).1

  unfoldable pub serve_all : List (Text × DocumentRequest) → Tables → Tables
  serve_all [] t = t
  serve_all ((user_id, r) ∷ rs) t = serve_all rs (serve user_id r t)

  -- the id of an upload is new when it comes
  abbrev pub NewFor : DocumentRequest → Tables → Type 0
  NewFor (upload fresh commits filename file_bytes metadata) t =
      All (λ d. text_eq d.id fresh.document_id ≡ false) t.documents
  NewFor (removal row_id now document_id) t = Unit
  NewFor listing t = Unit

  abbrev pub AllNew : List (Text × DocumentRequest) → Tables → Type 0
  AllNew [] t = Unit
  AllNew ((user_id, r) ∷ rs) t = NewFor r t × AllNew rs (serve user_id r t)

  serve-Keeps :
      (v user_id : Text) (r : DocumentRequest) (t : Tables)
      → text_eq user_id v ≡ false
      → OneOwner t.documents
      → NewFor r t
      → Keeps v t (serve user_id r t)
  unfolding serve ingest_route delete_route list_route list_documents
  serve-Keeps v u (upload fresh commits filename file_bytes metadata) t ne one new =
      elim (Result-cases (metadata_of loads metadata)) [
        | inl (m, e) ↦
            rw (e, serve)
              (ingestion-Keeps sniffer max_mb fresh u (filename_or filename) file_bytes m v commits
                t ne one new)
        | inr (x, e) ↦ rw (e, serve) (record { one_owner = one; same = refl })
      ]
  serve-Keeps v u (removal row_id now document_id) t ne one new =
      subst (Keeps v t) (sym (continue-state (delete_document row_id now u document_id t) _))
        (removal-Keeps v u row_id document_id now t ne one)
  serve-Keeps v u listing t ne one new = record { one_owner = one; same = refl }

  serve_all-same :
      (v : Text) (rs : List (Text × DocumentRequest)) (t : Tables)
      → All (λ r. text_eq r.0 v ≡ false) rs
      → OneOwner t.documents
      → AllNew rs t
      → mine v (serve_all rs t).documents ≡ mine v t.documents
  unfolding serve_all
  serve_all-same v [] t ne one new = refl
  serve_all-same v ((u, r) ∷ rs) t ne one new =
      let k = serve-Keeps v u r t ne.0 one new.0 in
      serve_all-same v rs (serve u r t) ne.1 k.one_owner new.1 ∙ k.same

  -- Whatever other users upload and delete, in any order and also where it is refused, the list of a
  -- user's documents is what it was, with every field, if documents with one id have one user and the
  -- id of each upload is new when it comes. A deletion under the id of a document of another user is
  -- among these requests.
  pub list_route-serve_all :
      (v : Text) (rs : List (Text × DocumentRequest)) (t : Tables)
      → All (λ r. text_eq r.0 v ≡ false) rs
      → OneOwner t.documents
      → AllNew rs t
      → (list_route v (serve_all rs t)).0 ≡ (list_route v t).0
  unfolding list_route list_documents
  list_route-serve_all v rs t ne one new =
      ap
        (λ l. ok (record {
          documents = sort_desc leb (λ d. d.created_at) l;
          total = length (sort_desc leb (λ d. d.created_at) l);
        }))
        (serve_all-same v rs t ne one new)
