-- ===== src/Worker/Handlers.antt =====
-- The handlers of the worker's tasks: internal/worker/tasks/accept_follow.go and reject_follow.go,
-- internal/worker/tasks/handlers/send_sweet.go, and the handlers around them of
-- internal/worker/handler.go. The services come from the container in the program and are parameters
-- here; reading a payload and resolving an activity are the libraries'. Logging, the capture of
-- errors and spans are left out.
pub mod Retries
pub mod Delivery
pub mod Captures
use Prim.Native.String.{◌++◌ as cat}
use estrys.Common.{ℕ, ltb, leb, ◌==◌, String, if◌then◌else◌, Option, none, some, true, false}
use estrys.Outcome.{
  Error, Result, ok, err, panic, message, skip_retry, wrap, task_error, Action, pure, fail, crash,
  lift, wrapping, match_call, ◌>>=◌, ◌>>◌,
}
use estrys.Outcome.Texts.{LibraryTexts, error_text}
use estrys.Outcome.Errors.{as_inbox_not_accepted, as_error_response, as_task_error}
use estrys.Models.{Url, User, Actor, Tweet}
use estrys.Activity.{Follow, Message, VocabLibrary}
use estrys.Ports.{
  Library, UserRepository, ActorRepository, TweetService, ActivityPubClient, VocabService,
}
use estrys.Worker.Tasks.{SendTweetInput, FollowInput, Payload, Task}
use estrys.Domain.Inbox.{get_actor_url}

-- `json.Unmarshal` of a payload, the resolver of activities, and the texts of the libraries' errors
pub record Decoder : Type 0 where
  pub texts : LibraryTexts
  pub send_tweet_input : Payload → Result SendTweetInput
  pub follow_input : Payload → Result FollowInput
  pub new_json_resolver : Result (Unit {0})
  pub resolve : String → Result Follow

-- `asynq.SkipRetry.Error()`
abbrev pub skip_retry_text : String
skip_retry_text = "skip retry for the task"

module _ {W : Type 0} where
  -- `return TaskError{SkipRetry: true, Err: errors.Wrap(err, text)}`
  unfoldable pub skipping : {A : Type 0} → String → Action W A → Action W A
  skipping text m = match_call m pure (λ e. fail (task_error true (wrap text e)))

  -- `return errors.Errorf("text : %v: %s", err, asynq.SkipRetry)`, a new error with the texts of both
  unfoldable pub stating : {A : Type 0} → LibraryTexts → String → Action W A → Action W A
  stating texts text m = match_call m pure λ e.
      fail (message (cat text (cat " : " (cat (error_text texts e) (cat ": " skip_retry_text)))))

abbrev pub rate_limited_text : String
rate_limited_text = "got rate limited while fetching tweets amd references"

-- The error of `HandleSendTweet` when the tweet cannot be saved
unfoldable pub save_error : Error → Error
save_error e = elim (as_error_response e) [
  | none ↦ task_error true (wrap "unable to save tweets and references" e)
  | some status ↦
      (if status == 429
        then task_error false (wrap rate_limited_text e)
        else task_error true (wrap "unable to save tweets and references" e))
]

unfoldable pub send_error : Error → Error
send_error e = elim (as_inbox_not_accepted e) [
  | none ↦ task_error true (wrap "unable to send create tweet" e)
  | some status ↦ task_error true (wrap "post to inbox was not accepted" e)
]

-- The error of `HandleAcceptFollow` after the post
unfoldable pub accept_error : Error → Error
accept_error e = elim (as_inbox_not_accepted e) [
  | none ↦ wrap "unable to accept follow request: skip retry for the task" e
  | some status ↦
      wrap "post to inbox was not accepted" (if ltb status 500 then wrap skip_retry_text e else e)
]

-- The error of `HandleRejectFollow` after the post
unfoldable pub reject_error : Error → Error
reject_error e = elim (as_inbox_not_accepted e) [
  | none ↦ wrap "unable to reject follow request: skip retry for the task" e
  | some status ↦
      wrap "post to inbox was not accepted" (if leb 500 status then wrap skip_retry_text e else e)
]

-- What `ErrorHandler` returns to the queue for an error
unfoldable pub judged : Error → Error
judged e = elim (as_task_error e) [ none ↦ e | some task ↦ (if task.0 then skip_retry else e) ]

module _ {W : Type 0} (library : Library) (vocab : VocabLibrary) (decoder : Decoder)
    (service : VocabService) (users : UserRepository W) (actors : ActorRepository W)
    (tweets : TweetService W) (client : ActivityPubClient W) where
  -- `ErrorHandler`
  unfoldable pub error_handler : (Payload → Action W (Unit {0})) → Payload → Action W (Unit {0})
  error_handler handler payload = match_call (handler payload) pure (λ e. fail (judged e))

  unfoldable pub save_tweet : String → Action W Tweet
  save_tweet id = match_call (tweets.save_tweet_and_references id) pure (λ e. fail (save_error e))

  -- `actorURL, _ := url.Parse(...)`: the URL is nil after an error, and is dereferenced.
  unfoldable pub actor_of : Result Url → Action W Actor
  actor_of (ok url) = actors.get url
  actor_of _ = crash "nil pointer dereference"

  unfoldable pub send_note : Actor → User → Message → Action W (Unit {0})
  send_note actor user note =
      match_call (client.post_inbox actor user note) pure (λ e. fail (send_error e))

  -- `HandleSendTweet` after the tweet was saved
  unfoldable pub send_saved : SendTweetInput → Tweet → Action W (Unit {0})
  send_saved input saved = do
    user ← skipping "unable to fetch user from database" (users.get input.from)
    actor ← skipping "unable to fetch actor from database" (actor_of (library.parse_url input.to))
    note ←
        skipping "unable to create an create tweet activity"
          (lift (service.get_create_note_from_tweet user.username saved))
    send_note actor user note

  unfoldable pub handle_send_tweet : Payload → Action W (Unit {0})
  handle_send_tweet payload = do
    input ← skipping "unable to deserialize task input" (lift (decoder.send_tweet_input payload))
    tweet ← save_tweet input.tweet_id
    send_saved input tweet

  -- The handlers of accept and reject tasks differ in the activity that they build, and in the error
  -- after the post.
  unfoldable pub answer_follow :
      String → (User → Follow → Result Message) → (Error → Error) → Payload → Action W (Unit {0})
  answer_follow text build judge payload = do
    input ←
        stating decoder.texts "unable to deserialize task input"
          (lift (decoder.follow_input payload))
    stating decoder.texts "unable to create json resolver" (lift decoder.new_json_resolver)
    act ←
        stating decoder.texts "unable to find a follow activity"
          (lift (decoder.resolve input.activity))
    user ← wrapping "unable to fetch user from database" (users.get input.username)
    url ←
        stating decoder.texts "unable parse actor URL"
          (lift (get_actor_url library vocab act.actor))
    actor ← wrapping "unable to retrieve actor" (actors.get url)
    reply ← stating decoder.texts text (lift (build user act))
    match_call (client.post_inbox actor user reply) pure (λ e. fail (judge e))

  unfoldable pub handle_accept_follow : Payload → Action W (Unit {0})
  handle_accept_follow =
      answer_follow "unable to create an accept request" service.get_accept accept_error

  unfoldable pub handle_reject_follow : Payload → Action W (Unit {0})
  handle_reject_follow =
      answer_follow "unable to create an reject request" service.get_reject reject_error
