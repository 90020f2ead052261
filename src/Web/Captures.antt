-- ===== src/Web/Captures.antt =====
-- What `HTTPErrorHandler` of internal/errors/errors.go reports to Sentry.
use estrys.Common.{Bool, true, false, if◌then◌else◌, List, [], ◌∷◌, String, ◌≡◌, ◌↔◌, ◌⊎◌, arith}
use estrys.Outcome.{Error, Result, ok, err, panic}
use estrys.Outcome.Errors.{is_actor_not_allowed, is_no_callback_match}
use estrys.Web.{
  HandlerError, Reply, written, refused, wrap_error, with_user_message, skip_capture,
  activity_error,
}

-- An error, or what was recovered from a panic
pub data Capture : Type 0 where
  exception : HandlerError → Capture
  recovery : String → Capture

-- What is captured after a handler, for a request with a hub or without one
unfoldable pub captures : Bool → Result Reply → List Capture
captures false r = []
captures true (ok (written status body)) = []
captures true (ok (refused e)) = if e.skip_error_capture then [] else exception e ∷ []
captures true (err e) = []
captures true (panic why) = recovery why ∷ []

-- An activity that was not carried out is left out of the reports exactly when its actor may not follow, or
-- when it is of a kind that the inbox does not take.
pub captures-activity_error_iff :
    (e : Error)
    → (captures true (ok (refused (activity_error e))) ≡ [])
      ↔ ((is_actor_not_allowed e ≡ true) ⊎ (is_no_callback_match e ≡ true))
unfolding captures activity_error wrap_error with_user_message skip_capture
captures-activity_error_iff e = ground arith
