-- ===== src/Worker/Handlers/Captures.antt =====
-- What `ErrorHandler` of internal/worker/handler.go reports to Sentry.
use estrys.Common.{
  Bool, true, false, Option, none, some, List, [], ◌∷◌, ◌≡◌, ◌⊎◌, refl, ap, ◌∙◌, inl, inr,
}
use estrys.Outcome.{Error, Result, ok, err, panic, skip_retry, wrap, task_error}
use estrys.Outcome.Errors.{as_task_error}
use estrys.Activity.{VocabLibrary}
use estrys.Ports.{
  Library, UserRepository, ActorRepository, TweetService, ActivityPubClient, VocabService,
}
use estrys.Worker.Tasks.{Payload}
use estrys.Worker.Handlers.{Decoder, rate_limited_text, judged, handle_send_tweet}
use estrys.Worker.Handlers.Retries.{limit_error, IsLimited, handle_send_tweet_cases}

-- The captures for an error, seen as a task error or not
abbrev pub captured_as : Option (Bool × Error) → Error → List Error
captured_as none e = e ∷ []
captured_as (some (true, cause)) e = cause ∷ []
captured_as (some (false, cause)) e = cause ∷ e ∷ []

-- The errors that are captured after a handler
unfoldable pub captures : Result (Unit {0}) → List Error
captures (ok done) = []
captures (err e) = captured_as (as_task_error e) e
captures (panic why) = []

captures-given_up : (e cause : Error) → e ≡ task_error true cause → captures (err e) ≡ cause ∷ []
unfolding captures as_task_error
captures-given_up e cause same = rw same refl

captures-limit_error :
    (e cause : Error)
    → e ≡ limit_error cause
    → captures (err e) ≡ wrap rate_limited_text cause ∷ limit_error cause ∷ []
unfolding captures as_task_error
captures-limit_error e cause same = rw same refl

module _ {W : Type 0} (library : Library) (vocab : VocabLibrary) (decoder : Decoder)
    (service : VocabService) (users : UserRepository W) (actors : ActorRepository W)
    (tweets : TweetService W) (client : ActivityPubClient W) where
  -- A send that fails is reported once, by the cause of its task error, when it did not meet Twitter's
  -- rate limit and is given up, and twice when it met it and is tried again: by the cause, and then by
  -- the task error around it.
  pub captures-handle_send_tweet :
      (payload : Payload) (e : Error) (w : W)
      → (handle_send_tweet library vocab decoder service users actors tweets client payload w).0
        ≡ err e
      → ((cause : Error) × (captures
              (handle_send_tweet library vocab decoder service users actors tweets client payload
                w).0
            ≡ cause ∷ [])
          × (judged e ≡ skip_retry)
          × (e ≡ task_error true cause)
          × (IsLimited decoder tweets payload w → ⊥))
        ⊎ ((l : IsLimited decoder tweets payload w) × (captures
                (handle_send_tweet library vocab decoder service users actors tweets client payload
                  w).0
              ≡ wrap rate_limited_text l.cause ∷ limit_error l.cause ∷ [])
            × (judged e ≡ limit_error l.cause))
  unfolding judged as_task_error
  captures-handle_send_tweet payload e w h =
      elim (handle_send_tweet_cases library vocab decoder service users actors tweets client payload
        e w h) [
          | inl ((cause, same), unlimited) ↦
              inl (
                cause,
                ap captures h ∙ captures-given_up e cause same,
                rw same refl,
                same,
                unlimited,
              )
          | inr (l, same) ↦
              inr (l, ap captures h ∙ captures-limit_error e l.cause same, rw same refl)
        ]
