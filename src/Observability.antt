-- ===== src/Observability.antt =====
-- internal/observability and internal/logger: transactions and spans around requests, calls and
-- queries. The tracing library, the router's match and the instants are parameters; what is printed is
-- left out, save the entry of a query.
pub mod Laws
use Prim.Native.String
use estrys.Common.{ℕ, String, Bool, if◌then◌else◌, Option, none, some, List, [], ◌∷◌, ◌-◌}
use estrys.Outcome.{Result, ok, err, panic, Action, pure, crash, lift, ◌>>=◌, ◌>>◌}

-- The library of `sentry`, over the contexts of requests
pub record Sentry (W : Type 0) : Type 1 where
  pub Context : Type 0
  pub Span : Type 0
  pub transaction_from_context : Context → Option Span
  pub start_transaction : Context → String → Action W Span
  pub set_op : Span → String → Action W (Unit {0})
  pub set_data : Span → List (String × String) → Action W (Unit {0})
  pub start_child : Span → String → List (String × String) → Action W Span
  pub finish : Span → Action W (Unit {0})
  pub to_sentry_trace : Span → String
  -- the context of a span
  pub context_of : Span → Context
  pub has_hub : Context → Bool
  -- `SetHubOnContext` with a clone of the current hub
  pub set_current_hub : Context → Context

-- The result of a call as a value; a panic goes through.
abbrev pub attempted {ℓ} : {A : Type ℓ} → Result A → Result (Result A)
attempted (ok a) = ok (ok a)
attempted (err e) = ok (err e)
attempted (panic why) = panic why

module _ {W A : Type 0} where
  -- `value, err := m`, with both used later on
  unfoldable pub attempt : Action W A → Action W (Result A)
  attempt m w = let (r, u) = m w in (attempted r, u)

  -- `defer d()`, which runs whether `m` returns, fails or panics
  unfoldable pub deferring : Action W (Unit {0}) → Action W A → Action W A
  deferring d m w = let (r, u) = m w in (r, (d u).1)

module _ {W : Type 0} (sentry : Sentry W) where
  unfoldable pub start_transaction : sentry.Context → String → Action W sentry.Span
  start_transaction ctx name = do
    tx ← sentry.start_transaction ctx name
    sentry.set_op tx name
    pure tx

  abbrev pub trace_id_of : Option sentry.Span → String
  trace_id_of none = ""
  trace_id_of (some tx) = sentry.to_sentry_trace tx

  unfoldable pub get_trace_id_from_context : sentry.Context → String
  get_trace_id_from_context ctx = trace_id_of (sentry.transaction_from_context ctx)

  abbrev pub start_child_of :
      Option sentry.Span → String → List (String × String) → Action W (Option sentry.Span)
  start_child_of none name info w = (ok none, w)
  start_child_of (some tx) name info w =
      (do span ← sentry.start_child tx name info; pure (some span)) w

  -- A span below the transaction of a context, if it has one
  unfoldable pub start_span :
      sentry.Context → String → List (String × String) → Action W (Option sentry.Span)
  start_span ctx name info = start_child_of (sentry.transaction_from_context ctx) name info

  unfoldable pub finish_span : Option sentry.Span → Action W (Unit {0})
  finish_span none = pure tt
  finish_span (some span) = sentry.finish span

  -- `HTTPLoggerRoundTripper.RoundTrip`, for a request with its context and its URL, or a nil one
  unfoldable pub round_trip :
      {Request Response : Type 0}
      → (Request → sentry.Context)
      → (Request → String)
      → (Option Request → Action W Response)
      → Option Request
      → Action W Response
  round_trip context_of url_of next none = next none
  round_trip context_of url_of next (some request) = do
    span ← start_span (context_of request) "http.client" (("http.url", url_of request) ∷ [])
    result ← attempt (next (some request))
    finish_span span
    lift result

  abbrev pub with_hub : sentry.Context → sentry.Context
  with_hub ctx = if sentry.has_hub ctx then ctx else sentry.set_current_hub ctx

  -- The route that the router matches: its name and its variables
  abbrev pub Match : Type 0
  Match = Option (String × List (String × String))

  abbrev pub transaction_name : String → String → Match → String
  transaction_name method path none = String.◌++◌ method (String.◌++◌ " " path)
  transaction_name method path (some route) = route.0

  abbrev pub transaction_data : Match → List (String × String)
  transaction_data none = []
  transaction_data (some route) = route.1

  -- `ObservabilityHandler`, for the method and the path of a request, and what the router matches
  unfoldable pub observability_handler :
      {A : Type 0}
      → (sentry.Context → Action W A)
      → sentry.Context
      → String
      → String
      → Match
      → Action W A
  observability_handler handler ctx method path match = do
    tx ← start_transaction (with_hub ctx) (transaction_name method path match)
    sentry.set_data tx (transaction_data match)
    deferring (sentry.finish tx) (handler (sentry.context_of tx))

  -- `traceQueryData`
  pub record QueryData : Type 0 where
    pub start_time : ℕ
    pub sql : String
    pub args : List String
    pub span : Option sentry.Span

  -- The arguments without the first, if there are two
  unfoldable pub shown_args : List String → List String
  shown_args (first ∷ second ∷ rest) = second ∷ rest
  shown_args args = args

  -- `TraceQueryStart`; the context that it returns holds the data.
  unfoldable pub trace_query_start : sentry.Context → ℕ → String → List String → Action W QueryData
  trace_query_start ctx now sql args = do
    span ← start_span ctx "db" (("db.system", "postgres") ∷ ("db.query", sql) ∷ [])
    pure (record { start_time = now; sql = sql; args = shown_args args; span = span })

  -- `TraceQueryEnd`: the assertion panics for a context without the data; the entry has the duration,
  -- for a clock that does not go back, the query and its arguments.
  unfoldable pub trace_query_end : Option QueryData → ℕ → Action W (ℕ × String × List String)
  trace_query_end none now = crash "interface conversion"
  trace_query_end (some data_of) now = do
    finish_span data_of.span
    pure (now - data_of.start_time, data_of.sql, data_of.args)
