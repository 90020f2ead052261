-- ===== src/Worker/Tasks.antt =====
-- internal/worker/tasks: the tasks and their payloads, and internal/worker/queues. A payload is kept
-- as the value that the JSON text encodes; times are in seconds. The trace id comes from the context
-- of the request and is a parameter.
use estrys.Common.{String, ℕ}
use estrys.Outcome.{Result, ok, err, Action}
use estrys.Models.{User, Actor}
use estrys.Activity.{Follow, VocabLibrary}

abbrev pub queue_follows : String
queue_follows = "follows"

abbrev pub queue_tweets : String
queue_tweets = "tweets"

abbrev pub type_accept_follow : String
type_accept_follow = "inbox:follow:accept"

abbrev pub type_reject_follow : String
type_reject_follow = "inbox:follow:reject"

abbrev pub type_send_tweet : String
type_send_tweet = "tweet:send"

pub record SendTweetInput : Type 0 where
  pub trace_id : String
  pub from : String
  pub to : String
  pub tweet_id : String

-- `AcceptFollowInput` and `RejectFollowInput`
pub record FollowInput : Type 0 where
  pub trace_id : String
  pub username : String
  pub activity : String

pub data Payload : Type 0 where
  send_tweet : SendTweetInput → Payload
  answer_follow : FollowInput → Payload

pub record Task : Type 0 where
  pub kind : String
  pub payload : Payload
  pub max_retry : ℕ
  pub timeout : ℕ
  pub queue : String
  pub retention : ℕ

-- `client.BackgroundWorkerClient` (internal/worker/client/client.go)
pub record WorkerClient (W : Type 0) : Type 0 where
  pub enqueue : Task → Action W (Unit {0})

unfoldable pub new_send_tweet : String → User → Actor → String → Task
new_send_tweet trace_id user actor tweet_id = record {
  kind = type_send_tweet;
  payload =
      send_tweet
        (record { trace_id = trace_id; from = user.username; to = actor.url; tweet_id = tweet_id });
  max_retry = 5;
  timeout = 10;
  queue = queue_tweets;
  retention = 3600;
}

abbrev follow_task : String → FollowInput → Task
follow_task kind input = record {
  kind = kind;
  payload = answer_follow input;
  max_retry = 5;
  timeout = 30;
  queue = queue_follows;
  retention = 86400;
}

module _ (vocab : VocabLibrary) (trace_id : String) where
  unfoldable pub new_accept_follow_task : String → Follow → Result Task
  new_accept_follow_task username act = elim (vocab.serialize_follow act) [
    | ok serialized ↦ ok (
        follow_task type_accept_follow
          (record { trace_id = trace_id; username = username; activity = serialized }))
    | err e ↦ err e
    | Result.panic why ↦ Result.panic why
  ]

  unfoldable pub new_reject_follow_task : String → Follow → Result Task
  new_reject_follow_task username act = elim (vocab.serialize_follow act) [
    | ok serialized ↦ ok (
        follow_task type_reject_follow
          (record { trace_id = trace_id; username = username; activity = serialized }))
    | err e ↦ err e
    | Result.panic why ↦ Result.panic why
  ]
