-- ===== src/Worker/Broker.antt =====
-- internal/worker/worker.go and `TracingHandler` of internal/worker/handler.go: the queues that the
-- worker reads and the handlers that it registers. The library's multiplexer is a parameter; spans and
-- logging are left out.
pub mod Laws
use estrys.Common.{ℕ, String, str_eq, if◌then◌else◌, Option, none, some, List, [], ◌∷◌}
use estrys.Outcome.{Action}
use estrys.Activity.{VocabLibrary}
use estrys.Ports.{
  Library, UserRepository, ActorRepository, TweetService, ActivityPubClient, VocabService,
}
use estrys.Worker.Tasks.{
  Payload, Task, queue_follows, queue_tweets, type_accept_follow, type_reject_follow,
  type_send_tweet,
}
use estrys.Worker.Handlers.{
  Decoder, error_handler, handle_accept_follow, handle_reject_follow, handle_send_tweet,
}

abbrev pub TaskHandler : Type 0 → Type 0
TaskHandler W = Payload → Action W (Unit {0})

-- `asynq.ServeMux` with the handlers that were registered
pub record ServeMux (W : Type 0) : Type 0 where
  pub process_task : List (String × TaskHandler W) → Task → Action W (Unit {0})

-- The weight of each queue
unfoldable pub worker_queues : List (String × ℕ)
worker_queues = (queue_follows, 1) ∷ (queue_tweets, 1) ∷ []

-- `TracingHandler`, which runs the handler within a span
unfoldable pub tracing_handler : {W : Type 0} → TaskHandler W → TaskHandler W
tracing_handler handler payload = handler payload

module _ {W : Type 0} (library : Library) (vocab : VocabLibrary) (decoder : Decoder)
    (service : VocabService) (users : UserRepository W) (actors : ActorRepository W)
    (tweets : TweetService W) (client : ActivityPubClient W) where
  -- The calls of `mux.HandleFunc`
  unfoldable pub registered : List (String × TaskHandler W)
  registered =
      (
        type_accept_follow,
        error_handler library vocab decoder service users actors tweets client (
            tracing_handler
              (handle_accept_follow library vocab decoder service users actors tweets client)),
      )
      ∷ (
        type_reject_follow,
        error_handler library vocab decoder service users actors tweets client (
            tracing_handler
              (handle_reject_follow library vocab decoder service users actors tweets client)),
      )
      ∷ (
        type_send_tweet,
        error_handler library vocab decoder service users actors tweets client (
            tracing_handler
              (handle_send_tweet library vocab decoder service users actors tweets client)),
      )
      ∷ []

  -- What `srv.Run(mux)` does with one task
  unfoldable pub carry_out : ServeMux W → Task → Action W (Unit {0})
  carry_out mux task = mux.process_task registered task
