-- ===== src/Server.antt =====
-- `StartServer` of internal/server.go. What happens until it returns is a list of events: requests
-- that reach the handler, which the library of net/http decides, the end of `ListenAndServe` in its
-- goroutine with an error, and the end of the context. Requests are given one after another; with the
-- events spent, the call has not returned.
pub mod Laws
use estrys.Common.{String, Bool, true, false, if◌then◌else◌, Option, none, some, List, [], ◌∷◌}
use estrys.Observability.{Sentry, Match, observability_handler}
use estrys.Outcome.{Error, Result, Action, wrapping}

pub data Event (Request : Type 0) : Type 0 where
  request : Request → Event Request
  -- `srv.ListenAndServe()` returned the error, which is logged
  listening_ended : Error → Event Request
  context_done : Event Request

-- The handler of the server, and `srv.Shutdown(ctx)` for a context that is done
pub record HttpServer (W Request : Type 0) : Type 0 where
  pub handle : Request → Action W (Unit {0})
  pub shutdown : Action W (Unit {0})

-- The server, whose handler observes the requests that the router serves
unfoldable pub new_http_server :
    {W Request : Type 0} (sentry : Sentry W)
    → (Request → sentry.Context)
    → (Request → String)
    → (Request → String)
    → (Request → Match sentry)
    → (sentry.Context → Request → Action W (Unit {0}))
    → Action W (Unit {0})
    → HttpServer W Request
new_http_server sentry context_of method_of path_of match serve_http shutdown = record {
  handle = λ r.
      observability_handler sentry (λ ctx. serve_http ctx r) (context_of r) (method_of r)
        (path_of r) (match r);
  shutdown = shutdown;
}

module _ {W Request : Type 0} (server : HttpServer W Request) where
  -- `<-ctx.Done()` and what follows
  unfoldable pub shut_down : Action W (Unit {0})
  shut_down = wrapping "error while sending shutdown signal to http server" server.shutdown

  -- The result of the call, if it has returned
  unfoldable pub start_server : List (Event Request) → W → Option (Result (Unit {0})) × W
  start_server [] w = (none, w)
  start_server (request r ∷ events) w = start_server events (server.handle r w).1
  start_server (listening_ended e ∷ events) w = start_server events w
  start_server (context_done ∷ events) w = let (r, u) = shut_down w in (some r, u)
