-- ===== src/Poller.antt =====
-- internal/twitter/poller/poller.go: one Twitter account is polled at each tick, in turn. The state
-- holds the fields of `twitterPoller` that change, beside the world outside. Spans and logging are
-- left out, and the loop's ticks and its end are a list of events.
pub mod Invariant
pub mod Bounds
pub mod Sends
pub mod Rate
pub mod Turns
pub mod Waiting
pub mod Rounds
use estrys.Common.{
  ℕ, zero, suc, ◌+◌, ◌*◌, ◌/◌, String, str_eq, Bool, true, false, ltb, ◌==◌, if◌then◌else◌, Option,
  none, some, List, [], ◌∷◌, length, get_elem?,
}
use estrys.Outcome.{
  Error, Result, ok, err, panic, no_user_to_poll, message, wrap, Action, pure, fail, crash,
  wrapping, match_call, ◌>>=◌, ◌>>◌,
}
use estrys.Outcome.Errors.{is_no_user_to_poll}
use estrys.Models.{
  User, Actor, TweetObj, Timeline, TimelineMeta, TimelineStart, since_id, start_time,
}
use estrys.Ports.{TwitterClient, UserRepository}
use estrys.Worker.Tasks.{Task, WorkerClient, new_send_tweet}

abbrev pub max_requests : ℕ
max_requests = 1500

abbrev pub period_mins : ℕ
period_mins = 15

-- The ticker's period in milliseconds
abbrev pub tick_period : ℕ
tick_period = period_mins * 60_000 / max_requests

-- The fields of `twitterPoller` that change; a nil slice of users is none.
pub record Poller : Type 0 where
  pub users : Option (List User)
  pub user_cursors : List (String × String)
  pub user_index : ℕ
  pub start : ℕ

abbrev pub user_list : Option (List User) → List User
user_list none = []
user_list (some users) = users

abbrev pub users_of : Poller → List User
users_of p = user_list p.users

-- The map of cursors
unfoldable pub cursor : String → List (String × String) → Option String
cursor name [] = none
cursor name ((j, v) ∷ cursors) = if str_eq j name then some v else cursor name cursors

unfoldable pub set_cursor : String → String → List (String × String) → List (String × String)
set_cursor name v cursors = (name, v) ∷ cursors

abbrev pub since : ℕ → Option String → TimelineStart
since started none = start_time started
since started (some newest) = since_id newest

pub record State (W : Type 0) : Type 0 where
  pub poller : Poller
  pub world : W

-- What the loop of `Start` waits for
pub data Event : Type 0 where
  tick done : Event

abbrev pub recovered : Result (Unit {0}) → Result (Unit {0})
recovered (panic why) = err (message why)
recovered r = r

module _ {W : Type 0} where
  unfoldable pub on_world : {A : Type 0} → Action W A → Action (State W) A
  on_world m s = let (r, w) = m s.world in (r, record s { world = w })

  unfoldable pub get_poller : Action (State W) Poller
  get_poller s = (ok s.poller, s)

  unfoldable pub set_users : Option (List User) → Action (State W) (Unit {0})
  set_users users s = (ok tt, record s { poller = record s.poller { users = users } })

  unfoldable pub set_index : ℕ → Action (State W) (Unit {0})
  set_index i s = (ok tt, record s { poller = record s.poller { user_index = i } })

  unfoldable pub save_cursor : String → String → Action (State W) (Unit {0})
  save_cursor name newest s = (
    ok tt,
    record s {
      poller = record s.poller { user_cursors = set_cursor name newest s.poller.user_cursors };
    },
  )

  unfoldable pub set_start : ℕ → Action (State W) (Unit {0})
  set_start now s = (ok tt, record s { poller = record s.poller { start = now } })

  -- The deferred `recover` of `FetchTweets`
  unfoldable pub recovering : Action (State W) (Unit {0}) → Action (State W) (Unit {0})
  recovering m s = let (r, s') = m s in (recovered r, s')

module _ {W : Type 0} (twitter : TwitterClient W) (repo : UserRepository W)
    (worker : WorkerClient W) (trace_id : String) where
  unfoldable pub check_users : Option (List User) → Action (State W) (Unit {0})
  check_users none = fail no_user_to_poll
  check_users (some users) = pure tt

  unfoldable pub refresh_user_list : Action (State W) (Unit {0})
  unfolding check_users
  refresh_user_list =
      match_call (on_world repo.get_with_followers) (λ users. set_users users >> check_users users)
        (λ e. set_users none >> fail e)

  -- One task for each follower
  unfoldable pub send_to : User → String → List Actor → Action W (Unit {0})
  send_to user tweet_id [] = pure tt
  send_to user tweet_id (actor ∷ actors) = do
    wrapping "unable to schedule send tweet task"
        (worker.enqueue (new_send_tweet trace_id user actor tweet_id))
    send_to user tweet_id actors

  unfoldable pub handle_tweet : User → TweetObj → Action W (Unit {0})
  handle_tweet user raw_tweet = do
    actors ← wrapping "unable to retrieve followers for user" (repo.get_followers user)
    send_to user raw_tweet.id actors

  unfoldable pub handle_tweets : User → List TweetObj → Action W (Unit {0})
  handle_tweets user [] = pure tt
  handle_tweets user (tweet ∷ tweets) = do handle_tweet user tweet; handle_tweets user tweets

  -- The tweets of an answer that counts some, and the cursor after them
  unfoldable pub handle_raw : User → String → Option (List TweetObj) → Action (State W) (Unit {0})
  handle_raw user newest none = crash "nil pointer dereference"
  handle_raw user newest (some tweets) =
      on_world (handle_tweets user tweets) >> save_cursor user.username newest

  unfoldable pub handle_meta :
      User → Option TimelineMeta → Option (List TweetObj) → Action (State W) (Unit {0})
  handle_meta user none raw = crash "nil pointer dereference"
  handle_meta user (some meta) raw =
      if ltb 0 meta.result_count then handle_raw user meta.newest_id raw else pure tt

  -- The part of `FetchTweets` after an answer of Twitter
  unfoldable pub handle_timeline : User → Timeline → Action (State W) (Unit {0})
  handle_timeline user tweets = handle_meta user tweets.meta tweets.raw

  unfoldable pub poll_user : Poller → User → Action (State W) (Unit {0})
  poll_user p user = do
    tweets ←
        on_world
          (twitter.get_user_tweets user.id (since p.start (cursor user.username p.user_cursors)))
    handle_timeline user tweets
    set_index (suc p.user_index)

  unfoldable pub user_at : Option User → Poller → Action (State W) (Unit {0})
  user_at none p = crash "index out of range"
  user_at (some user) p = poll_user p user

  -- `user := c.users[c.userIndex]` and what follows
  unfoldable pub poll_current : Action (State W) (Unit {0})
  poll_current = do p ← get_poller; user_at (get_elem? (users_of p) p.user_index) p

  -- All users have been polled: the list is read again, and nothing is done while it is empty.
  unfoldable pub restart : Action (State W) (Unit {0})
  restart = do
    set_index 0
    match_call refresh_user_list (λ _. poll_current)
        λ e. if is_no_user_to_poll e then pure tt else fail e

  unfoldable pub fetch_or_restart : Poller → Action (State W) (Unit {0})
  fetch_or_restart p = if length (users_of p) == p.user_index then restart else poll_current

  unfoldable pub fetch_tweets : Action (State W) (Unit {0})
  fetch_tweets = recovering do p ← get_poller; fetch_or_restart p

  -- The loop of `Start` that waits for users; with its fuel spent, the wait has not ended.
  unfoldable pub wait_for_users : ℕ → Action (State W) (Unit {0})
  wait_for_users zero = fail no_user_to_poll
  wait_for_users (suc fuel) =
      match_call refresh_user_list (λ _. pure tt)
        λ e. let again = wait_for_users fuel in if is_no_user_to_poll e then again else fail e

  -- `Start` before its ticker
  unfoldable pub start_users : ℕ → Action (State W) (Unit {0})
  start_users fuel =
      match_call refresh_user_list (λ _. pure tt)
        λ e.
          if is_no_user_to_poll e
          then wait_for_users fuel
          else fail (wrap "unexpected error while fetching users" e)

  -- The loop of `Start`: an error is logged, and the loop goes on.
  unfoldable pub run : List Event → State W → State W
  run [] s = s
  run (tick ∷ events) s = run events (fetch_tweets s).1
  run (done ∷ events) s = s

  unfoldable pub loop : List Event → Action (State W) (Unit {0})
  loop events s = (ok tt, run events s)

  -- `Start`, with the instant at which its ticker starts and the events until it ends
  unfoldable pub start : ℕ → ℕ → List Event → Action (State W) (Unit {0})
  unfolding loop
  start fuel now events = do start_users fuel; set_start now; loop events
