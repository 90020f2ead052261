-- ===== src/Web.antt =====
-- The HTTP side of the server: internal/activitypub/handlers/users.go, and the errors of handlers and
-- their answers of internal/errors/errors.go. The router's variables and the parts of a request that
-- are read are arguments. Logging and the capture of errors are left out, with the context that is
-- only captured; a handler's reply is a value.
pub mod Laws
pub mod Status
pub mod Finger
pub mod Signature
pub mod Replies
pub mod Follows
pub mod Captures
use estrys.Common.{ℕ, String, str_eq, Bool, true, false, ◌||◌, if◌then◌else◌, Option, none, some}
use estrys.Outcome.{Error, Result, ok, err, panic, message, Action, pure, fail, lift, match_call}
use estrys.Outcome.Errors.{
  is_some, as_user_not_found, is_user_does_not_exist, is_actor_not_allowed, is_no_callback_match,
  is_follow_mismatch_domain, as_unsupported_undo_object,
}
use estrys.Models.{FullUser}
use estrys.Activity.{Follow, Undo}
use estrys.Ports.{UserService, TwitterClient, InboxService}

-- `handlerError`
pub record HandlerError : Type 0 where
  -- none for a nil error
  pub cause : Option Error
  pub user_message : String
  pub http_code : ℕ
  pub skip_error_capture : Bool

-- `Wrap`, and the builders on its result
unfoldable pub wrap_error : Option Error → ℕ → HandlerError
wrap_error cause code = record {
  cause = cause;
  user_message = "";
  http_code = code;
  skip_error_capture = false;
}

unfoldable pub new_error : String → ℕ → HandlerError
new_error text code = wrap_error (some (message text)) code

unfoldable pub with_user_message : String → HandlerError → HandlerError
with_user_message text e = record e { user_message = text }

unfoldable pub skip_capture : HandlerError → HandlerError
skip_capture e = record e { skip_error_capture = true }

-- A handler has written a status and a body, or returns an error.
pub data Reply : Type 0 where
  written : ℕ → String → Reply
  refused : HandlerError → Reply

pub record Response : Type 0 where
  pub status : ℕ
  -- the message of the body `{"error": message}`
  pub error : Option String
  pub body : String

abbrev error_body : String → Option String
error_body text = if str_eq text "" then none else some text

-- The answer of `HTTPErrorHandler` for what a handler did
unfoldable pub respond : Reply → Response
respond (written status body) = record { status = status; error = none; body = body }
respond (refused e) = record { status = e.http_code; error = error_body e.user_message; body = "" }

-- The deferred `recover`, which stands only where the request has a hub
abbrev pub recovered : Bool → Result Response → Result Response
recovered true (panic why) = ok (record { status = 500; error = none; body = "" })
recovered _ r = r

module _ {W : Type 0} where
  unfoldable pub answering : Action W Reply → Action W Response
  answering handler = match_call handler (λ reply. pure (respond reply)) fail

  unfoldable pub http_error_handler : Bool → Action W Reply → Action W Response
  unfolding answering
  http_error_handler hub handler w = let (r, u) = answering handler w in (recovered hub r, u)

-- The error of a page whose user cannot be fetched
unfoldable pub lookup_error : Error → HandlerError
lookup_error e =
    if is_some (as_user_not_found e) || is_user_does_not_exist e
    then with_user_message "user not found" (wrap_error (some e) 404)
    else wrap_error (some e) 500

-- The error of an inbox whose user Twitter does not give
unfoldable pub inbox_user_error : Error → HandlerError
inbox_user_error e =
    if is_some (as_user_not_found e)
    then with_user_message "user not found" (wrap_error (some e) 404)
    else wrap_error (some e) 500

-- The error of an inbox for an activity that was not carried out
unfoldable pub activity_error : Error → HandlerError
activity_error e =
    if is_actor_not_allowed e
    then with_user_message "not allowed to follow this user"
        (skip_capture (wrap_error (some e) 403))
    else if is_no_callback_match e
    then with_user_message "unsupported activity" (skip_capture (wrap_error (some e) 400))
    else if is_follow_mismatch_domain e
    then with_user_message "cannot follow a user that is not on this instance"
        (wrap_error (some e) 400)
    else if is_some (as_unsupported_undo_object e)
    then with_user_message "can only undo Follow activities" (wrap_error (some e) 400)
    else if is_user_does_not_exist e
    then with_user_message "user not found" (wrap_error (some e) 400)
    else wrap_error (some e) 500

-- The documents that a user's pages show (`activitypub.VocabService`), and their JSON text
pub record Pages : Type 1 where
  pub Document : Type 0
  pub get_actor : FullUser → Result Document
  pub get_following : FullUser → Result Document
  pub get_followers : FullUser → Result Document
  pub get_outbox : FullUser → Result Document
  pub encode : Document → Result String

-- The resolver of activities with its callbacks for a follow, an undo and a delete, and the decoder of
-- the body
pub record JsonResolver (W : Type 0) : Type 1 where
  pub Json : Type 0
  pub new_json_resolver : Result (Unit {0})
  pub decode : String → Result Json
  pub resolve :
      (Follow → Action W (Unit {0}))
      → (Undo → Action W (Unit {0}))
      → Action W (Unit {0})
      → Json
      → Action W (Unit {0})

module _ {W : Type 0} where
  -- `if err != nil { return judge(err) }`
  unfoldable pub or_refuse :
      {A : Type 0} → (Error → HandlerError) → Action W A → (A → Action W Reply) → Action W Reply
  or_refuse judge m next = match_call m next (λ e. pure (refused (judge e)))

abbrev pub internal_error : Error → HandlerError
internal_error e = wrap_error (some e) 500

module _ {W : Type 0} (users : UserService W) (pages : Pages) where
  -- The handlers of the four pages differ in the document only.
  unfoldable pub handle_page : (FullUser → Result pages.Document) → String → Action W Reply
  handle_page get username = or_refuse lookup_error (users.get_full_user username) λ user.
      or_refuse internal_error (lift (get user)) λ document.
        or_refuse internal_error (lift (pages.encode document)) λ text. pure (written 200 text)

  unfoldable pub handle_user : String → Action W Reply
  handle_user = handle_page pages.get_actor

  unfoldable pub handle_following : String → Action W Reply
  handle_following = handle_page pages.get_following

  unfoldable pub handle_followers : String → Action W Reply
  handle_followers = handle_page pages.get_followers

  unfoldable pub handle_outbox : String → Action W Reply
  handle_outbox = handle_page pages.get_outbox

module _ {W : Type 0} (twitter : TwitterClient W) (inbox : InboxService W)
    (resolver : JsonResolver W) where
  -- The handling of a request whose signature was verified
  unfoldable pub handle_signed : String → String → Action W Reply
  handle_signed username body = or_refuse inbox_user_error (twitter.get_user username) λ _.
      or_refuse internal_error (lift resolver.new_json_resolver) λ _.
        or_refuse internal_error (lift (resolver.decode body)) λ json.
          or_refuse activity_error (resolver.resolve inbox.follow inbox.un_follow (pure tt) json)
            λ _. pure (written 202 "")

  unfoldable pub handle_inbox : Bool → String → String → Action W Reply
  handle_inbox is_signed username body =
      if is_signed
      then handle_signed username body
      else pure (refused (skip_capture (new_error "request signature failed" 403)))
