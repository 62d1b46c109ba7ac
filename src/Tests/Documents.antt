-- ===== src/Tests/Documents.antt =====
-- The list of a user's documents, with uploads and deletions of another one.
use multimodal_rag.Prelude.{◌≡◌, refl, none, some, List, [], ◌∷◌}
use multimodal_rag.Prelude.Text.{Text, text, text_eq}
use multimodal_rag.Exec.{raised}
use multimodal_rag.Errors.{value_error}
use multimodal_rag.Documents.{goes_through}
use multimodal_rag.Documents.Routes.{Loads, list_route}
use multimodal_rag.Documents.Tenants.{
  DocumentRequest, upload, removal, listing, serve_all, list_route-serve_all,
}
use multimodal_rag.Tests.Outbox.{tables, sniffer, fresh}

abbrev loads : Loads
loads s = raised value_error

-- an upload, a deletion of the document of user 9, an upload with bad metadata, and a listing
abbrev requests : List (Text × DocumentRequest)
requests =
    (8 ∷ [], upload fresh goes_through (some (text "h.pdf")) (37 ∷ 80 ∷ []) none)
    ∷ (8 ∷ [], removal (70 ∷ []) 9 (1 ∷ []))
    ∷ (8 ∷ [], removal (71 ∷ []) 9 (2 ∷ []))
    ∷ (8 ∷ [], listing)
    ∷ []

list_route-serve_all_example :
    (list_route (9 ∷ []) (serve_all loads sniffer 50 requests tables)).0
    ≡ (list_route (9 ∷ []) tables).0
unfolding text_eq
list_route-serve_all_example =
    list_route-serve_all loads sniffer 50 (9 ∷ []) requests tables
      (refl, (refl, (refl, (refl, tt)))) (tt, tt) ((refl, tt), (tt, (tt, (tt, tt))))
