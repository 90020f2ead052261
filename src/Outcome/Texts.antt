-- ===== src/Outcome/Texts.antt =====
-- The texts of the errors: the methods `Error` of internal/domain, internal/twitter,
-- internal/activitypub/client, internal/worker/errors and internal/errors, and of `errors.Wrap`. The texts
-- of the libraries' errors and the decimal digits are parameters; an error that was made from a format
-- has the text that the model keeps of it.
use Prim.Native.String
use text.Mathlib.TextLemmas.{nil-append, append_assoc}
use estrys.Common.{ℕ, String, str_eq, Option, none, some, if◌then◌else◌, ◌≡◌, sym, ap, ◌∙◌}
use estrys.Outcome.{
  Error, no_rows, redis_nil, cache_miss, user_does_not_exist, follow_mismatch_domain,
  no_user_to_poll, no_callback_match, skip_retry, actor_not_allowed, twitter_user_does_not_exist,
  user_not_found, unsupported_undo_object, inbox_not_accepted, error_response, message, wrap,
  with_stack, task_error,
}
use estrys.Outcome.Errors.{root}

pub record LibraryTexts : Type 0 where
  pub no_rows_text : String
  pub redis_nil_text : String
  pub no_callback_match_text : String
  pub skip_retry_text : String
  pub error_response_text : ℕ → String
  -- `%d`
  pub decimal : ℕ → String

abbrev join3 : String → String → String → String
join3 a b c = String.◌++◌ a (String.◌++◌ b c)

-- `UnsuportedUndoObjectError.Error`, for the name of the object's type, if it has one
abbrev pub undo_text : Option String → String
undo_text none = join3 "do not support undo on '" "unknown_type" "' activities"
undo_text (some kind) = join3 "do not support undo on '" kind "' activities"

module _ (texts : LibraryTexts) where
  unfoldable pub error_text : Error → String
  error_text no_rows = texts.no_rows_text
  error_text redis_nil = texts.redis_nil_text
  error_text cache_miss = "cache key not found"
  error_text user_does_not_exist = "user does not exist"
  error_text follow_mismatch_domain = "unable to follow an user outside this instance"
  error_text no_user_to_poll = "no user to poll"
  error_text no_callback_match = texts.no_callback_match_text
  error_text skip_retry = texts.skip_retry_text
  error_text actor_not_allowed = "user not allowed on instance"
  error_text (twitter_user_does_not_exist name) = join3 "@" name " does not exist on twitter"
  error_text (user_not_found name) = join3 "twitter user " name " not found"
  error_text (unsupported_undo_object kind) = undo_text kind
  error_text (inbox_not_accepted code) = String.◌++◌ "error posting to inbox " (texts.decimal code)
  error_text (error_response code) = texts.error_response_text code
  error_text (message text) = text
  error_text (wrap text e) = join3 text ": " (error_text e)
  error_text (with_stack e) = error_text e
  error_text (task_error skip e) = error_text e

  abbrev pub cause_text : String → Option Error → String
  cause_text text none = text
  cause_text text (some e) =
      String.◌++◌ (if str_eq text "" then text else String.◌++◌ text ": ") (error_text e)

  -- The text of an error ends with that of the error that it wraps.
  pub error_text-root :
      (e : Error) → (p : String) × (error_text e ≡ String.◌++◌ p (error_text (root e)))
  unfolding error_text
  error_text-root (wrap text e) =
      let (p, same) = error_text-root e in
      (
        String.◌++◌ text (String.◌++◌ ": " p),
        ap (join3 text ": ") same
            ∙ sym (
                append_assoc text (String.◌++◌ ": " p) _
                ∙ ap (String.◌++◌ text) (append_assoc ": " p _)),
      )
  error_text-root (with_stack e) = error_text-root e
  error_text-root no_rows = ("", sym (nil-append _))
  error_text-root redis_nil = ("", sym (nil-append _))
  error_text-root cache_miss = ("", sym (nil-append _))
  error_text-root user_does_not_exist = ("", sym (nil-append _))
  error_text-root follow_mismatch_domain = ("", sym (nil-append _))
  error_text-root no_user_to_poll = ("", sym (nil-append _))
  error_text-root no_callback_match = ("", sym (nil-append _))
  error_text-root skip_retry = ("", sym (nil-append _))
  error_text-root actor_not_allowed = ("", sym (nil-append _))
  error_text-root (twitter_user_does_not_exist name) = ("", sym (nil-append _))
  error_text-root (user_not_found name) = ("", sym (nil-append _))
  error_text-root (unsupported_undo_object kind) = ("", sym (nil-append _))
  error_text-root (inbox_not_accepted code) = ("", sym (nil-append _))
  error_text-root (error_response code) = ("", sym (nil-append _))
  error_text-root (message text) = ("", sym (nil-append _))
  error_text-root (task_error skip e) = ("", sym (nil-append _))
