-- ===== src/Outcome/Errors.antt =====
-- `errors.Is` and `errors.As` on the errors that the program inspects.
use estrys.Common.{String, str_eq, ℕ, Bool, true, false, Option, none, some}
use estrys.Outcome.{
  Error, no_rows, redis_nil, cache_miss, user_does_not_exist, follow_mismatch_domain,
  no_user_to_poll, no_callback_match, skip_retry, actor_not_allowed, user_not_found,
  unsupported_undo_object, inbox_not_accepted, error_response, wrap, with_stack, task_error,
}

-- The innermost error, which every test below looks at.
abbrev pub root : Error → Error
root (wrap text e) = root e
root (with_stack e) = root e
root e = e

abbrev is_no_rows_root : Error → Bool
is_no_rows_root no_rows = true
is_no_rows_root _ = false

abbrev is_redis_nil_root : Error → Bool
is_redis_nil_root redis_nil = true
is_redis_nil_root _ = false

abbrev is_cache_miss_root : Error → Bool
is_cache_miss_root cache_miss = true
is_cache_miss_root _ = false

abbrev is_user_does_not_exist_root : Error → Bool
is_user_does_not_exist_root user_does_not_exist = true
is_user_does_not_exist_root _ = false

abbrev is_follow_mismatch_domain_root : Error → Bool
is_follow_mismatch_domain_root follow_mismatch_domain = true
is_follow_mismatch_domain_root _ = false

abbrev is_no_user_to_poll_root : Error → Bool
is_no_user_to_poll_root no_user_to_poll = true
is_no_user_to_poll_root _ = false

abbrev is_no_callback_match_root : Error → Bool
is_no_callback_match_root no_callback_match = true
is_no_callback_match_root _ = false

abbrev is_skip_retry_root : Error → Bool
is_skip_retry_root skip_retry = true
is_skip_retry_root _ = false

abbrev is_actor_not_allowed_root : Error → Bool
is_actor_not_allowed_root actor_not_allowed = true
is_actor_not_allowed_root _ = false

abbrev as_user_not_found_root : Error → Option String
as_user_not_found_root (user_not_found name) = some name
as_user_not_found_root _ = none

abbrev as_unsupported_undo_object_root : Error → Option (Option String)
as_unsupported_undo_object_root (unsupported_undo_object kind) = some kind
as_unsupported_undo_object_root _ = none

abbrev as_inbox_not_accepted_root : Error → Option ℕ
as_inbox_not_accepted_root (inbox_not_accepted code) = some code
as_inbox_not_accepted_root _ = none

abbrev as_error_response_root : Error → Option ℕ
as_error_response_root (error_response code) = some code
as_error_response_root _ = none

abbrev as_task_error_root : Error → Option (Bool × Error)
as_task_error_root (task_error skip cause) = some (skip, cause)
as_task_error_root _ = none

unfoldable pub is_no_rows : Error → Bool
is_no_rows e = is_no_rows_root (root e)

unfoldable pub is_redis_nil : Error → Bool
is_redis_nil e = is_redis_nil_root (root e)

unfoldable pub is_cache_miss : Error → Bool
is_cache_miss e = is_cache_miss_root (root e)

unfoldable pub is_user_does_not_exist : Error → Bool
is_user_does_not_exist e = is_user_does_not_exist_root (root e)

unfoldable pub is_follow_mismatch_domain : Error → Bool
is_follow_mismatch_domain e = is_follow_mismatch_domain_root (root e)

unfoldable pub is_no_user_to_poll : Error → Bool
is_no_user_to_poll e = is_no_user_to_poll_root (root e)

unfoldable pub is_no_callback_match : Error → Bool
is_no_callback_match e = is_no_callback_match_root (root e)

unfoldable pub is_skip_retry : Error → Bool
is_skip_retry e = is_skip_retry_root (root e)

unfoldable pub is_actor_not_allowed : Error → Bool
is_actor_not_allowed e = is_actor_not_allowed_root (root e)

unfoldable pub as_user_not_found : Error → Option String
as_user_not_found e = as_user_not_found_root (root e)

unfoldable pub as_unsupported_undo_object : Error → Option (Option String)
as_unsupported_undo_object e = as_unsupported_undo_object_root (root e)

unfoldable pub as_inbox_not_accepted : Error → Option ℕ
as_inbox_not_accepted e = as_inbox_not_accepted_root (root e)

unfoldable pub as_error_response : Error → Option ℕ
as_error_response e = as_error_response_root (root e)

unfoldable pub as_task_error : Error → Option (Bool × Error)
as_task_error e = as_task_error_root (root e)

abbrev pub is_some {ℓ} : {A : Type ℓ} → Option A → Bool
is_some none = false
is_some (some a) = true

-- `errors.Is(err, UserNotFoundError{name})`, which compares the values
unfoldable pub is_user_not_found : String → Error → Bool
unfolding as_user_not_found
is_user_not_found name e = elim (as_user_not_found e) [
  | none ↦ false
  | some other ↦ str_eq other name
]
