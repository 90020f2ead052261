-- ===== src/Poller/Rate.antt =====
-- The poller stays within Twitter's rate limit: a tick makes one request at most, and the ticker's
-- period lets no more than `max_requests` ticks into a window.
use estrys.Common.{
  ℕ, suc, ◌+◌, ◌*◌, ◌≤◌, String, Bool-cases, ◌==◌, if◌then◌else◌, Option, none, some, List, [], ◌∷◌,
  length, inl, inr, arith,
}
use estrys.Outcome.{Error, Action, pure, fail, crash, ◌>>=◌}
use estrys.Outcome.Keeps.{
  Keeps-crash, Keeps, Keeps-pure, Keeps-fail, Keeps-wrapping, Keeps-if, Keeps-match_call,
  Keeps-bind, Leads, Leads-bind, Leads-match_call,
}
use estrys.Outcome.Errors.{is_no_user_to_poll}
use estrys.Models.{User, Actor, TweetObj, Timeline, TimelineStart, TimelineMeta}
use estrys.Ports.{TwitterClient, UserRepository}
use estrys.Worker.Tasks.{Task, WorkerClient}
use estrys.Poller.{
  max_requests, period_mins, tick_period, Poller, users_of, State, Event, tick, done, on_world,
  get_poller, set_users, set_index, save_cursor, recovering, check_users, refresh_user_list,
  send_to, handle_tweet, handle_tweets, handle_raw, handle_meta, handle_timeline, poll_user,
  user_at, poll_current, restart, fetch_or_restart, fetch_tweets, run,
}

-- A count of the requests made to Twitter: reading a timeline is at most one, and the other
-- services make none.
pub record IsCounted {W : Type 0} (requests : W → ℕ) (twitter : TwitterClient W)
    (repo : UserRepository W) (worker : WorkerClient W) : Type 0 where
  pub get_user_tweets_counts :
      (id : String) (start : TimelineStart) (w : W)
      → requests (twitter.get_user_tweets id start w).1 ≤ suc (requests w)
  pub get_with_followers_counts : (w : W) → requests (repo.get_with_followers w).1 ≤ requests w
  pub get_followers_counts :
      (user : User) (w : W) → requests (repo.get_followers user w).1 ≤ requests w
  pub enqueue_counts : (task : Task) (w : W) → requests (worker.enqueue task w).1 ≤ requests w

-- The ticks before the end
abbrev pub ticks : List Event → ℕ
ticks [] = 0
ticks (tick ∷ events) = suc (ticks events)
ticks (done ∷ events) = 0

module _ {W : Type 0} (requests : W → ℕ) (twitter : TwitterClient W) (repo : UserRepository W)
    (worker : WorkerClient W) (trace_id : String)
    (counted : IsCounted requests twitter repo worker) where
  abbrev Made : ℕ → W → Type 0
  Made n w = requests w ≤ n

  abbrev MadeIn : ℕ → State W → Type 0
  MadeIn n s = requests s.world ≤ n

  module _ (n : ℕ) where
    Made-on_world : {A : Type 0} (m : Action W A) → Keeps (Made n) m → Keeps (MadeIn n) (on_world m)
    unfolding on_world
    Made-on_world m k = record { at = λ s h. k.at s.world h }

    send_to-Made :
        (user : User) (id : String) (actors : List Actor)
        → Keeps (Made n) (send_to twitter repo worker trace_id user id actors)
    unfolding send_to
    send_to-Made user id [] = Keeps-pure tt
    send_to-Made user id (actor ∷ actors) =
        let rest = send_to-Made user id actors in
        Keeps-bind _ _
          (Keeps-wrapping _ _ (record { at = λ w h. omega (arith, counted.enqueue_counts _ w) }))
          (λ _. rest)

    handle_tweet-Made :
        (user : User) (tweet : TweetObj)
        → Keeps (Made n) (handle_tweet twitter repo worker trace_id user tweet)
    unfolding handle_tweet
    handle_tweet-Made user tweet =
        Keeps-bind _ _
          (Keeps-wrapping _ _
            (record { at = λ w h. omega (arith, counted.get_followers_counts user w) }))
          (λ actors. send_to-Made user tweet.id actors)

    handle_tweets-Made :
        (user : User) (tweets : List TweetObj)
        → Keeps (Made n) (handle_tweets twitter repo worker trace_id user tweets)
    unfolding handle_tweets
    handle_tweets-Made user [] = Keeps-pure tt
    handle_tweets-Made user (tweet ∷ tweets) =
        let rest = handle_tweets-Made user tweets in
        Keeps-bind _ _ (handle_tweet-Made user tweet) (λ _. rest)

    handle_meta-Made :
        (user : User) (meta : Option TimelineMeta) (raw : Option (List TweetObj))
        → Keeps (MadeIn n) (handle_meta twitter repo worker trace_id user meta raw)
    unfolding handle_meta handle_raw save_cursor
    handle_meta-Made user none raw = Keeps-crash _
    handle_meta-Made user (some meta) none = Keeps-if _ _ _ (Keeps-crash _) (Keeps-pure tt)
    handle_meta-Made user (some meta) (some tweets) =
        Keeps-if _ _ _
          (Keeps-bind _ _ (Made-on_world _ (handle_tweets-Made user tweets))
            (λ _. record { at = λ s h. h }))
          (Keeps-pure tt)

    handle_timeline-Made :
        (user : User) (tweets : Timeline)
        → Keeps (MadeIn n) (handle_timeline twitter repo worker trace_id user tweets)
    unfolding handle_timeline
    handle_timeline-Made user tweets = handle_meta-Made user tweets.meta tweets.raw

    check_users-Made :
        (users : Option (List User))
        → Keeps (MadeIn n) (check_users twitter repo worker trace_id users)
    unfolding check_users
    check_users-Made none = Keeps-fail _
    check_users-Made (some users) = Keeps-pure tt

    refresh_user_list-Made : Keeps (MadeIn n) (refresh_user_list twitter repo worker trace_id)
    unfolding refresh_user_list set_users
    refresh_user_list-Made =
        Keeps-match_call _ _ _
          (Made-on_world _
            (record { at = λ w h. omega (arith, counted.get_with_followers_counts w) }))
          (λ users. Keeps-bind _ _ (record { at = λ s h. h }) (λ _. check_users-Made users))
          (λ e. Keeps-bind _ _ (record { at = λ s h. h }) (λ _. Keeps-fail e))

  get_user_tweets-Made :
      (n : ℕ) (id : String) (start : TimelineStart)
      → Leads (MadeIn n) (MadeIn (suc n)) (on_world (twitter.get_user_tweets id start))
  unfolding on_world
  get_user_tweets-Made n id start = record {
    at = λ s h. omega (arith, counted.get_user_tweets_counts id start s.world);
  }

  Leads-of_Keeps :
      {A : Type 0} {n : ℕ} {m : Action (State W) A}
      → Keeps (MadeIn n) m
      → Leads (MadeIn n) (MadeIn n) m
  Leads-of_Keeps k = record { at = k.at }

  poll_user-Made :
      (n : ℕ) (p : Poller) (user : User)
      → Leads (MadeIn n) (MadeIn (suc n)) (poll_user twitter repo worker trace_id p user)
  unfolding poll_user set_index
  poll_user-Made n p user =
      Leads-bind {Q = MadeIn (suc n)} _ _ (get_user_tweets-Made n user.id _)
        (λ tweets. Leads-of_Keeps (
          Keeps-bind _ _ (handle_timeline-Made (suc n) user tweets)
            (λ _. record { at = λ s h. h })))
        (λ s h. h)

  user_at-Made :
      (n : ℕ) (user : Option User) (p : Poller)
      → Leads (MadeIn n) (MadeIn (suc n)) (user_at twitter repo worker trace_id user p)
  unfolding user_at crash
  user_at-Made n none p = record { at = λ s h. omega arith }
  user_at-Made n (some user) p = poll_user-Made n p user

  poll_current-Made :
      (n : ℕ) → Leads (MadeIn n) (MadeIn (suc n)) (poll_current twitter repo worker trace_id)
  unfolding poll_current get_poller ◌>>=◌
  poll_current-Made n = record { at = λ s h. (user_at-Made n _ s.poller).at s h }

  or_nothing-Made :
      (n : ℕ) (e : Error)
      → Leads (MadeIn n) (MadeIn (suc n)) (if is_no_user_to_poll e then pure tt else fail e)
  unfolding pure fail
  or_nothing-Made n e = elim (Bool-cases (is_no_user_to_poll e)) [
    | inl nobody ↦ rw nobody (record { at = λ s h. omega arith })
    | inr other ↦ rw other (record { at = λ s h. omega arith })
  ]

  restart-Made : (n : ℕ) → Leads (MadeIn n) (MadeIn (suc n)) (restart twitter repo worker trace_id)
  unfolding restart set_index
  restart-Made n =
      Leads-bind {Q = MadeIn n} _ _ (record { at = λ s h. h })
        (λ _.
          Leads-match_call {Q = MadeIn n} _ _ _ (Leads-of_Keeps (refresh_user_list-Made n))
            (λ _. poll_current-Made n) (or_nothing-Made n) (λ s h. omega arith))
        (λ s h. omega arith)

  fetch_tweets-Made :
      (s : State W)
      → requests (fetch_tweets twitter repo worker trace_id s).1.world ≤ suc (requests s.world)
  unfolding fetch_tweets fetch_or_restart recovering get_poller ◌>>=◌
  fetch_tweets-Made s = elim (Bool-cases (length (users_of s.poller) == s.poller.user_index)) [
    | inl all ↦ rw all ((restart-Made (requests s.world)).at s (omega arith))
    | inr more ↦ rw more ((poll_current-Made (requests s.world)).at s (omega arith))
  ]

  run-Made :
      (events : List Event) (s : State W)
      → requests (run twitter repo worker trace_id events s).world ≤ requests s.world + ticks events
  unfolding run
  run-Made [] s = omega arith
  run-Made (tick ∷ events) s =
      let rest = run-Made events (fetch_tweets twitter repo worker trace_id s).1 in
      omega (arith, rest, fetch_tweets-Made s)
  run-Made (done ∷ events) s = omega arith

  -- Where reading a timeline makes at most one request and the other services make none, the
  -- poller makes, in a run whose ticks fit into the period of the rate limit, at most the number
  -- of requests that the limit allows, whatever fails.
  pub run_within_limit :
      (events : List Event) (s : State W)
      → ticks events * tick_period ≤ period_mins * 60_000
      → requests (run twitter repo worker trace_id events s).world ≤ requests s.world + max_requests
  run_within_limit events s fits = omega (arith, run-Made events s)
