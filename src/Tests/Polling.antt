-- ===== src/Tests/Polling.antt =====
-- The poller on concrete services.
use estrys.Common.{
  suc, none, ◌==◌, ◌≤◌, ◌+◌, ◌++◌, ltb, if◌then◌else◌, some, [], ◌∷◌, ◌≡◌, refl, arith,
}
use estrys.Outcome.{ok, message, pure, fail, wrapping, match_call, ◌>>=◌}
use estrys.Outcome.Keeps.{Returns}
use estrys.Models.{Timeline, count_of, tweets_of}
use estrys.Worker.Tasks.{new_send_tweet}
use estrys.Poller.{
  max_requests, users_of, State, tick, done, since, cursor, set_cursor, on_world, get_poller,
  set_users, set_index, save_cursor, recovering, refresh_user_list, send_to, handle_tweet,
  handle_tweets, handle_raw, handle_meta, handle_timeline, poll_user, user_at, poll_current,
  restart, fetch_or_restart, fetch_tweets, run, start,
}
use estrys.Poller.Invariant.{IsReady, run-IsReady}
use estrys.Poller.Bounds.{IsQuiet, fetch_or_restart-Returns}
use estrys.Poller.Sends.{IsObserved, tasks_for, after_turn, fetch_tweets-queue}
use estrys.Poller.Turns.{run_fails}
use estrys.Poller.Rounds.{ticks, turns, run_refreshed}
use estrys.Ports.{UserRepository}
use estrys.Poller.Waiting.{start_found}
use estrys.Poller.Rate.{IsCounted, run_within_limit}
use estrys.Tests.Services.{
  hello, World, alice, bob, nobody_yet, worker, twitter, broken_twitter, users,
}

unfoldable pub calls : Unit {0}
unfolding pure fail wrapping match_call ◌>>=◌
calls = tt

unfoldable pub polling : Unit {0}
unfolding cursor set_cursor on_world get_poller set_users set_index save_cursor recovering
    refresh_user_list send_to handle_tweet handle_tweets handle_raw handle_meta handle_timeline
    poll_user user_at poll_current restart fetch_or_restart fetch_tweets run new_send_tweet
polling = tt

-- One user, whose turn it is
abbrev pub one_user : State World
one_user = record {
  poller = record { users = some (alice ∷ []); user_cursors = []; user_index = 0; start = 3 };
  world = nobody_yet;
}

abbrev pub after_tick : State World
after_tick = (fetch_tweets twitter users worker "t" one_user).1

pub observed : IsObserved (λ w. w.queue) (λ user. bob ∷ []) twitter users worker
unfolding pure
observed = record {
  enqueue_appends = λ task w u h. ground arith;
  get_followers_reads = λ user actors w u h. ground arith;
  get_user_tweets_reads = λ id start tweets w u h. ground arith;
}

quiet : IsQuiet twitter users worker
unfolding pure
quiet = record {
  get_user_tweets_returns = λ id start w. record { at = tt };
  get_user_tweets_complete = λ id start w u answer h. (
    record { result_count = 1; newest_id = "20" },
    hello ∷ [],
    ground (arith, h),
    ground (arith, h),
  );
  get_with_followers_returns = λ w. record { at = tt };
  get_followers_returns = λ user w. record { at = tt };
  enqueue_returns = λ task w. record { at = tt };
  some_users = λ w u all h. ground arith;
}

counted : IsCounted (λ w. w.requests) twitter users worker
unfolding pure
counted = record {
  get_user_tweets_counts = λ id start w. omega arith;
  get_with_followers_counts = λ w. omega arith;
  get_followers_counts = λ user w. omega arith;
  enqueue_counts = λ task w. omega arith;
}

-- A tick queues the tweet for the follower, and moves on; the next one starts over.
run_tests :
    (after_tick.world.queue ≡ new_send_tweet "t" alice bob "20" ∷ [])
    × (after_tick.poller.user_index ≡ 1)
    × (cursor "alice" after_tick.poller.user_cursors ≡ some "20")
    × ((run twitter users worker "t" (tick ∷ tick ∷ done ∷ tick ∷ []) one_user).world.requests ≡ 2)
unfolding calls polling
run_tests = (refl, refl, refl, refl)

fetch_tweets-queue_example :
    (answer : Timeline) × (w : World) × (twitter.get_user_tweets "1"
        (since 3 (cursor "alice" []))
        nobody_yet
      ≡ (ok answer, w))
    × (after_tick.world.queue ≡ (
        if ltb 0 (count_of answer)
        then [] ++ tasks_for "t" alice (bob ∷ []) (tweets_of answer)
        else []))
    × (after_tick.poller ≡ after_turn one_user.poller alice answer)
unfolding calls polling
fetch_tweets-queue_example =
    fetch_tweets-queue (λ w. w.queue) (λ user. bob ∷ []) twitter users worker "t" observed alice
      one_user after_tick refl refl

run-IsReady_example : IsReady (run twitter users worker "t" (tick ∷ tick ∷ []) one_user).poller
run-IsReady_example = run-IsReady twitter users worker "t" (tick ∷ tick ∷ []) one_user (omega arith)

fetch_or_restart-Returns_example :
    Returns (fetch_or_restart twitter users worker "t" one_user.poller) one_user
fetch_or_restart-Returns_example =
    fetch_or_restart-Returns twitter users worker "t" quiet one_user (omega arith)

run_within_limit_example :
    (run twitter users worker "t" (tick ∷ tick ∷ []) one_user).world.requests ≤ 0 + max_requests
run_within_limit_example =
    run_within_limit (λ w. w.requests) twitter users worker "t" counted (tick ∷ tick ∷ []) one_user
      (omega arith)

run_fails_example :
    (run broken_twitter users worker "t" (tick ∷ tick ∷ []) one_user).poller ≡ one_user.poller
unfolding fail
run_fails_example =
    run_fails broken_twitter users worker "t" alice (λ start w. (message "suspended", w, refl))
      (tick ∷ tick ∷ []) one_user refl

-- The list of users is nil at the first reading.
abbrev later_users : UserRepository World
later_users = record users {
  get_with_followers = λ w. (
    ok (if w.requests == 0 then none else some (alice ∷ [])),
    record w { requests = suc w.requests },
  );
}

abbrev read_twice : World
read_twice = record nobody_yet { requests = 2 }

start_found_example : start twitter later_users worker "t" 1 3 (done ∷ []) one_user ≡ (
  ok tt,
  run twitter later_users worker "t" (done ∷ []) (record {
    poller = record { users = some (alice ∷ []); user_cursors = []; user_index = 0; start = 3 };
    world = read_twice;
  }),
)
start_found_example =
    start_found twitter later_users worker "t" (alice ∷ []) 1 1 3 (done ∷ []) one_user read_twice
      (record nobody_yet { requests = 1 }, refl, refl) (omega arith)

-- Alice with two followers, whom the join gives twice
abbrev two_rows : UserRepository World
two_rows = record users { get_with_followers = pure (some (alice ∷ alice ∷ [])) }

run_refreshed_example :
    (users_of
        (run twitter two_rows worker "t"
          (ticks 2)
          (refresh_user_list twitter two_rows worker "t" one_user).1).poller
      ≡ alice ∷ alice ∷ [])
    × ((run twitter two_rows worker "t"
          (ticks 2)
          (refresh_user_list twitter two_rows worker "t" one_user).1).poller.user_index
        ≡ turns twitter two_rows worker "t" 2
            (refresh_user_list twitter two_rows worker "t" one_user).1)
unfolding pure
run_refreshed_example =
    run_refreshed twitter two_rows worker "t" ((alice, bob ∷ bob ∷ []) ∷ []) 2 one_user nobody_yet
      refl refl (omega arith)
