-- ===== src/Observability/Laws.antt =====
-- Every span that is opened is finished, and what is traced answers as it would untraced.
use estrys.Common.{ℕ, suc, ◌-◌, String, Option, none, some, List, ◌≡◌, refl, ap, ◌∙◌, arith}
use estrys.Outcome.{Result, ok, err, panic, Action, pure, lift}
use estrys.Outcome.Inversion.{bind_run_ok}
use estrys.Outcome.Keeps.{IsReturn}
use estrys.Observability.{
  Sentry, attempted, attempt, deferring, start_transaction, start_child_of, start_span, finish_span,
  round_trip, Match, transaction_name, transaction_data, with_hub, observability_handler,
}

-- How many spans are open: starting one opens it, finishing one closes it, and its name and data change
-- nothing.
pub record IsSentry {W : Type 0} (sentry : Sentry W) (opened : W → ℕ) : Type 0 where
  pub starts :
      (ctx : sentry.Context) (name : String) (w : W)
      → (tx : sentry.Span) × (u : W) × (sentry.start_transaction ctx name w ≡ (ok tx, u))
        × (opened u ≡ suc (opened w))
  pub starts_child :
      (tx : sentry.Span) (name : String) (info : List (String × String)) (w : W)
      → (span : sentry.Span) × (u : W) × (sentry.start_child tx name info w ≡ (ok span, u))
        × (opened u ≡ suc (opened w))
  pub sets_op :
      (tx : sentry.Span) (name : String) (w : W)
      → (u : W) × (sentry.set_op tx name w ≡ (ok tt, u)) × (opened u ≡ opened w)
  pub sets_data :
      (tx : sentry.Span) (info : List (String × String)) (w : W)
      → (u : W) × (sentry.set_data tx info w ≡ (ok tt, u)) × (opened u ≡ opened w)
  pub finishes :
      (span : sentry.Span) (w : W)
      → (u : W) × (sentry.finish span w ≡ (ok tt, u)) × (opened u ≡ opened w - 1)

attempt_run :
    {W A : Type 0} (m : Action W A) (w : W) → IsReturn (m w).0 → attempt m w ≡ (ok (m w).0, (m w).1)
unfolding attempt
attempt_run {W} {A} m w returns = ap (λ r. (r, (m w).1)) (go (m w).0 returns)
  where
    go : (r : Result A) → IsReturn r → attempted r ≡ ok r
    go (ok a) h = refl
    go (err e) h = refl
    go (panic why) h = absurd h

module _ {W : Type 0} (sentry : Sentry W) (opened : W → ℕ) (tracing : IsSentry sentry opened) where
  start_transaction_run :
      (ctx : sentry.Context) (name : String) (w : W)
      → (tx : sentry.Span) × (u : W) × (start_transaction sentry ctx name w ≡ (ok tx, u))
        × (opened u ≡ suc (opened w))
  unfolding start_transaction pure
  start_transaction_run ctx name w =
      let (tx, u, started, more) = tracing.starts ctx name w in
      let (v, named, same) = tracing.sets_op tx name u in
      (tx, v, bind_run_ok _ _ w started ∙ bind_run_ok _ _ u named, same ∙ more)

  -- A span, if one was started, is closed by `FinishSpan`.
  Closes : Option sentry.Span → W → W → Type 0
  Closes span u w =
      (x : W)
      → opened x ≡ opened u
      → (v : W) × (finish_span sentry span x ≡ (ok tt, v)) × (opened v ≡ opened w)

  start_span_run :
      (ctx : sentry.Context) (name : String) (info : List (String × String)) (w : W)
      → (span : Option sentry.Span) × (u : W) × (start_span sentry ctx name info w ≡ (ok span, u))
        × Closes span u w
  unfolding start_span Closes finish_span pure
  start_span_run ctx name info w = go (sentry.transaction_from_context ctx)
    where
      go :
          (tx : Option sentry.Span)
          → (span : Option sentry.Span) × (u : W) × (start_child_of sentry tx name info w
              ≡ (ok span, u))
            × ((x : W)
                → opened x ≡ opened u
                → (v : W) × (finish_span sentry span x ≡ (ok tt, v)) × (opened v ≡ opened w))
      go none = (none, w, refl, λ x same. (x, refl, same))
      go (some tx) =
          let (span, u, started, more) = tracing.starts_child tx name info w in
          (
            some span,
            u,
            bind_run_ok _ _ w started,
            λ x same.
                let (v, done, less) = tracing.finishes span x in
                (v, done, omega (arith, same, more, less)),
          )

  module _ {Request Response : Type 0} (context_of : Request → sentry.Context)
      (url_of : Request → String) (next : Option Request → Action W Response) where
    -- Where the tracing library counts its open spans, a request that is traced is answered as the next
    -- round tripper answers it, from the state in which the span was started, and leaves no span open,
    -- if that round tripper returns and leaves none itself.
    pub round_trip-Transparent :
        (request : Request) (w : W)
        → ((x : W) → IsReturn (next (some request) x).0)
        → ((x : W) → opened (next (some request) x).1 ≡ opened x)
        → (u : W) × ((round_trip sentry context_of url_of next (some request) w).0
            ≡ (next (some request) u).0)
          × (opened (round_trip sentry context_of url_of next (some request) w).1 ≡ opened w)
    unfolding round_trip lift Closes
    round_trip-Transparent request w returns balanced =
        let (span, u, started, closes) = start_span_run _ _ _ w in
        let tried = attempt_run (next (some request)) u (returns u) in
        let (v, done, same) = closes (next (some request) u).1 (balanced u) in
        let run = bind_run_ok _ _ w started ∙ bind_run_ok _ _ u tried ∙ bind_run_ok _ _ _ done in
        (u, ap (λ p. p.0) run, ap (λ p. opened p.1) run ∙ same)

  -- Where the tracing library counts its open spans, a request that is observed is answered as its handler
  -- answers it, from a state in which the transaction was started, and leaves no span open, whether the
  -- handler returns, fails or panics, if it leaves none itself.
  pub observability_handler-Transparent :
      {A : Type 0} (handler : sentry.Context → Action W A) (ctx : sentry.Context)
      (method path : String) (match : Match sentry) (w : W)
      → ((inner : sentry.Context) (x : W) → opened (handler inner x).1 ≡ opened x)
      → (tx : sentry.Span) × (u : W) × (opened u ≡ suc (opened w))
        × ((observability_handler sentry handler ctx method path match w).0
            ≡ (handler (sentry.context_of tx) u).0)
        × (opened (observability_handler sentry handler ctx method path match w).1 ≡ opened w)
  unfolding observability_handler deferring
  observability_handler-Transparent handler ctx method path match w balanced =
      let (tx, u, started, more) =
        start_transaction_run (with_hub sentry ctx) (transaction_name sentry method path match) w in
      let (v, set, same) = tracing.sets_data tx (transaction_data sentry match) u in
      let run = bind_run_ok _ _ w started ∙ bind_run_ok _ _ u set in
      let (x, done, less) = tracing.finishes tx (handler (sentry.context_of tx) v).1 in
      (
        tx,
        v,
        same ∙ more,
        ap (λ p. p.0) run,
        ap (λ p. opened p.1) run
            ∙ (ap opened (ap (λ p. p.1) done)
                ∙ omega (arith, less, same, more, balanced (sentry.context_of tx) v)),
      )
