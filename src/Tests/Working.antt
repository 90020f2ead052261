-- ===== src/Tests/Working.antt =====
-- The worker's handlers and posts to inboxes, on concrete services.
use estrys.Tests.Services.{texts}
use estrys.Common.{◌⊎◌, true, ℕ, some, [], ◌∷◌, false, ◌≡◌, refl}
use estrys.Outcome.{
  Error, ok, err, skip_retry, inbox_not_accepted, error_response, wrap, task_error, pure, fail,
  crash, lift, wrapping, match_call, ◌>>=◌,
}
use estrys.Outcome.Errors.{as_inbox_not_accepted, as_error_response, as_task_error, is_skip_retry}
use estrys.Activity.{iri, Follow, Message, accept}
use estrys.Ports.{ActorRepository, TweetService, ActivityPubClient, VocabService}
use estrys.Worker.Tasks.{send_tweet, answer_follow, SendTweetInput, FollowInput}
use estrys.Worker.Handlers.{
  Decoder, rate_limited_text, skipping, stating, save_error, send_error, accept_error, reject_error,
  judged, error_handler, save_tweet, actor_of, send_note, send_saved, handle_send_tweet,
  handle_accept_follow, handle_reject_follow,
}
use estrys.Worker.Handlers.Retries.{IsLimited, limit_error, handle_send_tweet_retries}
use estrys.Worker.Handlers.Captures.{captures, captures-handle_send_tweet}
use estrys.Domain.Inbox.{get_actor_url}
use estrys.Federation.{HttpLibrary}
use estrys.Tests.Services.{
  World, alice_url, bob, bob_url, with_alice, parser, printer, users, actors,
}

calls : Unit {0}
unfolding pure fail crash lift wrapping match_call ◌>>=◌
calls = tt

working : Unit {0}
unfolding as_inbox_not_accepted as_error_response as_task_error is_skip_retry skipping stating
    save_error send_error accept_error reject_error judged error_handler save_tweet actor_of
    send_note send_saved handle_send_tweet estrys.Worker.Handlers.answer_follow handle_accept_follow
    handle_reject_follow get_actor_url
working = tt

abbrev pub send : SendTweetInput
send = record { trace_id = "t"; from = "alice"; to = "https://far/users/bob"; tweet_id = "20" }

abbrev pub reply : FollowInput
reply = record { trace_id = "t"; username = "alice"; activity = "follow" }

abbrev pub request : Follow
request = record { actor = some (iri bob_url ∷ []); object = some (iri alice_url ∷ []) }

abbrev pub decoder : Decoder
decoder = record {
  texts = texts;
  send_tweet_input = λ payload. ok send;
  follow_input = λ payload. ok reply;
  new_json_resolver = ok tt;
  resolve = λ s. ok request;
}

abbrev note : Message
note = accept (record { id = alice_url; actor = alice_url; object = request ∷ [] })

abbrev pub service : VocabService
service = record {
  get_accept = λ user act. ok note;
  get_reject = λ user act. ok note;
  get_create_note_from_tweet = λ name t. ok note;
}

abbrev pub limited : TweetService World
limited = record { save_tweet_and_references = λ id. fail (wrap "lookup" (error_response 429)) }

-- An inbox that answers with a status
abbrev refusing : ℕ → ActivityPubClient World
refusing status = record { post_inbox = λ actor user act. fail (inbox_not_accepted status) }

-- An inbox that accepts
abbrev pub accepting : ActivityPubClient World
accepting = record { post_inbox = λ actor user act. pure tt }

-- A rate limit is tried again; a missing actor is not.
retries_tests :
    ((error_handler parser printer decoder service users actors limited
        (refusing 500)
        (handle_send_tweet parser printer decoder service users actors limited (refusing 500))
        (send_tweet send)
        with_alice).0
      ≡ err (task_error false (wrap rate_limited_text (wrap "lookup" (error_response 429)))))
unfolding calls working
retries_tests = refl

abbrev met_limit : Error
met_limit = limit_error (wrap "lookup" (error_response 429))

handle_send_tweet_retries_example :
    ((met_limit ≡ skip_retry) × (IsLimited decoder limited (send_tweet send) with_alice → ⊥))
    ⊎ ((l : IsLimited decoder limited (send_tweet send) with_alice) × (met_limit
          ≡ limit_error l.cause))
unfolding calls working
handle_send_tweet_retries_example =
    handle_send_tweet_retries parser printer decoder service users actors limited (refusing 500)
      (send_tweet send) met_limit with_alice refl

captures-handle_send_tweet_example :
    ((cause : Error) × (captures
          (handle_send_tweet parser printer decoder service users actors limited
            (refusing 500)
            (send_tweet send)
            with_alice).0
        ≡ cause ∷ [])
      × (judged met_limit ≡ skip_retry)
      × (met_limit ≡ task_error true cause)
      × (IsLimited decoder limited (send_tweet send) with_alice → ⊥))
    ⊎ ((l : IsLimited decoder limited (send_tweet send) with_alice) × (captures
            (handle_send_tweet parser printer decoder service users actors limited
              (refusing 500)
              (send_tweet send)
              with_alice).0
          ≡ wrap rate_limited_text l.cause ∷ limit_error l.cause ∷ [])
        × (judged met_limit ≡ limit_error l.cause))
unfolding calls working
captures-handle_send_tweet_example =
    captures-handle_send_tweet parser printer decoder service users actors limited (refusing 500)
      (send_tweet send) met_limit with_alice refl

-- Actors that are known
abbrev pub known_actors : ActorRepository World
known_actors = record actors { get = λ url. pure bob }

abbrev refused : Error
refused =
    wrap "post to inbox was not accepted" (wrap "skip retry for the task" (inbox_not_accepted 404))

abbrev pub http : HttpLibrary World
http = record {
  join_path = λ base path. base;
  check_request = λ url. ok tt;
  sign = λ key id r. ok "signature";
  transport = λ r signature. pure 202;
  client_do = λ send r. send r;
}
