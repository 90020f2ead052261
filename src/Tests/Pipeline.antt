-- ===== src/Tests/Pipeline.antt =====
-- A tweet from a tick to its post, on concrete services.
use estrys.Common.{[], ◌∷◌, ◌≡◌, refl, arith}
use estrys.Outcome.{Result, ok, err, message}
use estrys.Models.{Actor, TweetObj, Timeline, tweets_of}
use estrys.Worker.Tasks.{Payload, send_tweet, answer_follow, SendTweetInput, Task}
use estrys.Worker.Handlers.{Decoder, error_handler}
use estrys.Worker.Broker.{registered, carry_out, tracing_handler}
use estrys.Poller.{since, cursor}
use estrys.System.Pipeline.{IsIn, Sent, fetch_tweets-carry_out}
use estrys.Tests.Services.{
  World, alice, bob, nobody_yet, with_alice, parser, printer, twitter, users, urls, worker,
}
use estrys.Tests.Working.{decoder, http, known_actors}
use estrys.Tests.Broker.{mux, mux-IsServeMux}
use estrys.Tests.Sending.{
  sending, saving, serializer, resolver, pem, http-IsHttpClient, resolver-IsResolver,
}
use estrys.Tests.Polling.{calls, polling, one_user, after_tick, observed}

abbrev send_input_of : Payload → Result SendTweetInput
send_input_of (send_tweet input) = ok input
send_input_of (answer_follow input) = err (message "another input")

abbrev exact_decoder : Decoder
exact_decoder = record decoder { send_tweet_input = send_input_of }

abbrev hello_task : Task
hello_task = record {
  kind = "tweet:send";
  payload =
      send_tweet
        (record { trace_id = "t"; from = "alice"; to = "https://far/users/bob"; tweet_id = "20" });
  max_retry = 5;
  timeout = 10;
  queue = "tweets";
  retention = 3600;
}

fetch_tweets-carry_out_example :
    (answer : Timeline) × (v : World) × (twitter.get_user_tweets "1"
        (since 3 (cursor "alice" []))
        nobody_yet
      ≡ (ok answer, v))
    × (tweet : TweetObj) × IsIn tweet (tweets_of answer)
    × (actor : Actor) × IsIn actor (bob ∷ [])
    × Sent parser printer exact_decoder urls serializer resolver pem users known_actors saving http
        "now" http-IsHttpClient resolver-IsResolver mux mux-IsServeMux
        (λ input. refl)
        alice
        actor
        tweet.id
        hello_task
        with_alice
        with_alice
unfolding calls polling sending registered carry_out error_handler tracing_handler
fetch_tweets-carry_out_example =
    fetch_tweets-carry_out parser printer exact_decoder urls serializer resolver pem users
      known_actors saving http "now" http-IsHttpClient resolver-IsResolver mux mux-IsServeMux
      (λ input. refl) (λ w. w.queue) (λ user. bob ∷ []) twitter worker "t" observed alice one_user
      after_tick hello_task 0 with_alice with_alice refl refl (omega arith) refl refl
