-- ===== src/Tests/Service.antt =====
-- A start without Elasticsearch, a request, and a few settings.
use multimodal_rag.Prelude.{ℕ, ◌+◌, ◌≡◌, refl, false, none, some, [], ◌∷◌}
use multimodal_rag.Prelude.Text.{text}
use multimodal_rag.Prelude.Dict.{put}
use multimodal_rag.Errors.{Exception, other, value_error}
use multimodal_rag.Exec.{ok, raised}
use multimodal_rag.Service.{
  Connections, qdrant, refused, shut_down, shutdown_raised, lifespan, Task, Request, Answer,
  Handler, middleware, bind_user_id, parse_cors_origins, secret_not_placeholder, docs_urls,
}
use multimodal_rag.Service.Started.{Goes, lifespan_lem}
use multimodal_rag.Service.Requests.{identified, middleware_lem}

-- the world counts the calls; the cluster of Elasticsearch does not answer its ping
abbrev connections : Connections ℕ
connections = record {
  select_one = λ w. (ok tt, w + 1);
  redis_ping = λ w. (ok tt, w + 1);
  get_collections = λ w. (ok tt, w + 1);
  es_ping = λ w. (ok false, w + 1);
  dispose = λ w. (ok tt, w + 1);
}

started_without_elasticsearch : lifespan connections (λ w. w + 100) 0 ≡ (shut_down, 105)
unfolding lifespan
started_without_elasticsearch = refl

refused_without_qdrant :
    lifespan (record connections { get_collections = λ w. (raised other, w) }) (λ w. w + 100) 0
    ≡ (refused qdrant, 2)
unfolding lifespan
refused_without_qdrant = refl

-- the pool cannot be disposed of
shutdown_fails :
    lifespan (record connections { dispose = λ w. (raised other, w) }) (λ w. w + 100) 0
    ≡ (shutdown_raised other, 104)
unfolding lifespan
shutdown_fails = refl

lifespan_lem_example :
    Goes connections
      (λ w. w + 100)
      0
      (lifespan connections (λ w. w + 100) 0).0
      (lifespan connections (λ w. w + 100) 0).1
lifespan_lem_example = lifespan_lem connections (λ w. w + 100) 0

abbrev request : Request
request = record { context = []; request_id = none; user_id = none }

abbrev answered : Answer ℕ
answered = record { response = 200; request_id = none }

-- each `call_next` runs in its own task, whose context is gone afterwards
abbrev own_task : Task
own_task before after = before

-- the routes of a user
abbrev routes : Handler ℕ
routes r = (ok answered, record r { user_id = some (text "ann") })

middleware_lem_example :
    ((a : Answer ℕ) (t : Request)
      → routes (identified (text "id") request) ≡ (ok a, t)
      → middleware own_task (text "id") (λ h. h) routes request ≡ (
        ok (record a { request_id = some (text "id") }),
        bind_user_id t.user_id (record t { context = [] }),
      ))
    × ((e : Exception) (t : Request)
        → routes (identified (text "id") request) ≡ (raised e, t)
        → middleware own_task (text "id") (λ h. h) routes request
          ≡ (raised e, record t { context = [] }))
middleware_lem_example = middleware_lem own_task (text "id") (λ h. h) routes request

-- the user is in the context only when the routes are done
context_after :
    (middleware own_task (text "id") (λ h. h) routes request).1.context
    ≡ (text "user_id", text "ann") ∷ []
unfolding middleware put
context_after = refl

origins :
    parse_cors_origins (text " https://a.b, ,https://c.d")
    ≡ text "https://a.b" ∷ text "https://c.d" ∷ []
unfolding parse_cors_origins text
origins = refl

secrets :
    (secret_not_placeholder (text "CHANGE_ME_0123456789012345678901234567890") ≡ raised value_error)
    × (secret_not_placeholder (text "short") ≡ raised value_error)
    × (secret_not_placeholder (text "0123456789012345678901234567890123")
        ≡ ok (text "0123456789012345678901234567890123"))
unfolding secret_not_placeholder text
secrets = (refl, refl, refl)

docs_off : docs_urls (text "production") ≡ none ∷ none ∷ none ∷ []
unfolding docs_urls text
docs_off = refl
