-- ===== src/Service/Requests.antt =====
-- The log context and the id of a request, through the middleware of app/core/middleware.py.
use multimodal_rag.Prelude.{◌≡◌, refl, some, []}
use multimodal_rag.Prelude.Text.{Text, text}
use multimodal_rag.Prelude.Dict.{put}
use multimodal_rag.Errors.{Exception}
use multimodal_rag.Exec.{ok, raised}
use multimodal_rag.Service.{
  Task, leave, Request, Answer, Handler, middleware, request_id_dispatch, audit_context_dispatch,
  bind_user_id,
}

-- the request as the routes get it
abbrev pub identified : Text → Request → Request
identified fresh r = record r {
  request_id = some fresh;
  context = put (text "request_id") fresh r.context;
}

-- The id of a request is in the log context while the routes run, which their user is not: it is bound
-- once they are done, to the context that is left by then. A response has the id. What the routes
-- raise passes by without the id, and no context is cleared.
pub middleware_lem :
    {A : Type 0} (task : Task) (fresh : Text) (cors : Handler A → Handler A) (routes : Handler A)
    (r : Request)
    → ((a : Answer A) (t : Request)
        → cors routes (identified fresh r) ≡ (ok a, t)
        → middleware task fresh cors routes r ≡ (
          ok (record a { request_id = some fresh }),
          bind_user_id t.user_id (record t { context = task r.context [] }),
        ))
      × ((e : Exception) (t : Request)
          → cors routes (identified fresh r) ≡ (raised e, t)
          → middleware task fresh cors routes r
            ≡ (raised e, leave task r.context (leave task (identified fresh r).context t)))
unfolding middleware request_id_dispatch audit_context_dispatch
middleware_lem task fresh cors routes r = (λ a t h. rw h refl, λ e t h. rw h refl)
