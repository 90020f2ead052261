-- ===== src/Tests/Tracing.antt =====
-- The tracing of requests, and the server, on concrete events.
use estrys.Common.{ℕ, suc, ◌-◌, String, false, Option, none, some, [], ◌∷◌, ◌≡◌, refl}
use estrys.Outcome.{ok, message, Action, pure, fail, crash, lift, wrapping, match_call, ◌>>=◌}
use estrys.Observability.{
  Sentry, attempt, deferring, start_transaction, start_span, finish_span, round_trip,
  observability_handler, shown_args, trace_query_start, trace_query_end, get_trace_id_from_context,
}
use estrys.Observability.Laws.{IsSentry, round_trip-Transparent, observability_handler-Transparent}

-- The world is the number of open spans; a context has a transaction, or none.
abbrev sentry : Sentry ℕ
sentry = record {
  Context = Option ℕ;
  Span = ℕ;
  transaction_from_context = λ ctx. ctx;
  start_transaction = λ ctx name w. (ok w, suc w);
  set_op = λ tx name w. (ok tt, w);
  set_data = λ tx info w. (ok tt, w);
  start_child = λ tx name info w. (ok w, suc w);
  finish = λ span w. (ok tt, w - 1);
  to_sentry_trace = λ span. "trace";
  context_of = λ span. some span;
  has_hub = λ ctx. false;
  set_current_hub = λ ctx. ctx;
}

tracing : IsSentry sentry (λ w. w)
tracing = record {
  starts = λ ctx name w. (w, suc w, refl, refl);
  starts_child = λ tx name info w. (w, suc w, refl, refl);
  sets_op = λ tx name w. (w, refl, refl);
  sets_data = λ tx info w. (w, refl, refl);
  finishes = λ span w. (w - 1, refl, refl);
}

unfoldable traced : Unit {0}
unfolding pure fail crash lift wrapping match_call ◌>>=◌ attempt deferring start_transaction
    start_span finish_span round_trip observability_handler shown_args trace_query_start
    trace_query_end get_trace_id_from_context
traced = tt

-- A round tripper that fails, for a request that is its context
abbrev failing : Option (Option ℕ) → Action ℕ String
failing r = fail (message "refused")

round_trip-Transparent_example :
    (u : ℕ) × ((round_trip sentry (λ c. c) (λ c. "https://here") failing (some (some 5)) 7).0
      ≡ (failing (some (some 5)) u).0)
    × ((round_trip sentry (λ c. c) (λ c. "https://here") failing (some (some 5)) 7).1 ≡ 7)
unfolding fail
round_trip-Transparent_example =
    round_trip-Transparent sentry (λ w. w) tracing (λ c. c) (λ c. "https://here") failing (some 5) 7
      (λ x. tt) (λ x. refl)

-- A handler that panics
abbrev panicking : Option ℕ → Action ℕ String
panicking ctx = crash "nil pointer dereference"

observability_handler-Transparent_example :
    (tx u : ℕ) × (u ≡ suc 7)
    × ((observability_handler sentry panicking none "GET" "/users/alice" none 7).0
        ≡ (panicking (some tx) u).0)
    × ((observability_handler sentry panicking none "GET" "/users/alice" none 7).1 ≡ 7)
unfolding crash
observability_handler-Transparent_example =
    observability_handler-Transparent sentry (λ w. w) tracing panicking none "GET" "/users/alice"
      none 7 (λ ctx x. refl)

-- A span stays open where the round tripper panics; a query outside of a transaction has no span, and its
-- entry leaves out the first of its arguments.
tracing_tests :
    ((round_trip sentry
        (λ c. c)
        (λ c. "https://here")
        (λ r. crash {A = String} "nil")
        (some (some 5))
        7).1
      ≡ 8)
    × ((trace_query_start sentry none 3 "SELECT 1" ("a" ∷ "b" ∷ []) >>= λ query.
            trace_query_end sentry (some query) 5)
          7
        ≡ (ok (2, "SELECT 1", "b" ∷ []), 7))
    × (get_trace_id_from_context sentry none ≡ "")
unfolding traced
tracing_tests = (refl, refl, refl)
