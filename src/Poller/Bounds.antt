-- ===== src/Poller/Bounds.antt =====
-- The list of users is read within its bounds, so `recover` in `FetchTweets` has only the panics of
-- the services to catch, and those of an answer that has no `Meta` or no `Raw`.
use estrys.Common.{
  ℕ, ◌<◌, String, Bool-cases, ◌==◌, Option, none, some, List, [], ◌∷◌, length, get_elem?_of_lt, ◌≡◌,
  refl, ◌≢◌, inl, inr, arith,
}
use estrys.Outcome.{Result, ok, err, panic, Action, pure, fail, ◌>>=◌, ◌>>◌}
use estrys.Models.{User, Actor, TweetObj, Timeline, TimelineMeta, TimelineStart}
use estrys.Ports.{TwitterClient, UserRepository}
use estrys.Worker.Tasks.{Task, WorkerClient}
use estrys.Poller.{
  Poller, users_of, State, on_world, get_poller, set_users, set_index, save_cursor,
  refresh_user_list, check_users, send_to, handle_tweet, handle_tweets, handle_raw, handle_meta,
  handle_timeline, poll_user, user_at, poll_current, restart, fetch_or_restart,
}
use estrys.Outcome.Keeps.{
  Returns, Returns-pure, Returns-fail, Returns-wrapping, Returns-if, Returns-match_call,
  Returns-bind,
}
use estrys.Poller.Invariant.{IsReady}

abbrev pub IsComplete : Timeline → Type 0
IsComplete answer =
    (meta : TimelineMeta) × (tweets : List TweetObj) × (answer.meta ≡ some meta)
    × (answer.raw ≡ some tweets)

-- The services return or fail, each answer of Twitter has its `Meta` and its `Raw`, and the list of
-- users that they give is nil or has users, as the generated query leaves a nil slice where there are
-- no rows.
pub record IsQuiet {W : Type 0} (twitter : TwitterClient W) (repo : UserRepository W)
    (worker : WorkerClient W) : Type 0 where
  pub get_user_tweets_returns :
      (id : String) (since : TimelineStart) (w : W) → Returns (twitter.get_user_tweets id since) w
  pub get_user_tweets_complete :
      (id : String) (since : TimelineStart) (w u : W) (answer : Timeline)
      → twitter.get_user_tweets id since w ≡ (ok answer, u)
      → IsComplete answer
  pub get_with_followers_returns : (w : W) → Returns repo.get_with_followers w
  pub get_followers_returns : (user : User) (w : W) → Returns (repo.get_followers user) w
  pub enqueue_returns : (task : Task) (w : W) → Returns (worker.enqueue task) w
  pub some_users :
      (w u : W) (users : List User)
      → repo.get_with_followers w ≡ (ok (some users), u)
      → 0 < length users

module _ {W : Type 0} (twitter : TwitterClient W) (repo : UserRepository W)
    (worker : WorkerClient W) (trace_id : String) (quiet : IsQuiet twitter repo worker) where
  on_world-Returns :
      {A : Type 0} (m : Action W A) (s : State W) → Returns m s.world → Returns (on_world m) s
  unfolding on_world
  on_world-Returns m s h = record { at = h.at }

  send_to-Returns :
      (user : User) (id : String) (actors : List Actor) (w : W)
      → Returns (send_to twitter repo worker trace_id user id actors) w
  unfolding send_to pure
  send_to-Returns user id [] w = Returns-pure tt w
  send_to-Returns user id (actor ∷ actors) w =
      Returns-bind _ _ w (Returns-wrapping _ _ w (quiet.enqueue_returns _ w))
        λ _ u _. send_to-Returns user id actors u

  handle_tweets-Returns :
      (user : User) (tweets : List TweetObj) (w : W)
      → Returns (handle_tweets twitter repo worker trace_id user tweets) w
  unfolding handle_tweets handle_tweet pure
  handle_tweets-Returns user [] w = Returns-pure tt w
  handle_tweets-Returns user (tweet ∷ tweets) w =
      Returns-bind _ _ w
        (Returns-bind _ _ w (Returns-wrapping _ _ w (quiet.get_followers_returns user w))
          λ actors u _. send_to-Returns user tweet.id actors u)
        λ _ u _. handle_tweets-Returns user tweets u

  -- An answer that has its `Meta` and its `Raw` is handled without a panic.
  handled-Returns :
      (user : User) (tweets : Timeline) (i : ℕ) (s : State W)
      → IsComplete tweets
      → Returns (handle_timeline twitter repo worker trace_id user tweets >> set_index i) s
  unfolding handle_timeline handle_meta handle_raw set_index save_cursor pure
  handled-Returns user tweets i s (meta, raw, is_meta, is_raw) =
      rw (is_meta, is_raw)
        (Returns-bind _ _ s
          (Returns-if _ _ _ s
            (Returns-bind _ _ s (on_world-Returns _ s (handle_tweets-Returns user raw s.world))
              λ _ v _. record { at = tt })
            (Returns-pure tt s))
          λ _ v _. record { at = tt })

  asked :
      (id : String) (since : TimelineStart) (s u : State W) (tweets : Timeline)
      → on_world (twitter.get_user_tweets id since) s ≡ (ok tweets, u)
      → twitter.get_user_tweets id since s.world ≡ (ok tweets, u.world)
  unfolding on_world
  asked id since s u tweets h = ground arith

  poll_user-Returns :
      (p : Poller) (user : User) (s : State W)
      → Returns (poll_user twitter repo worker trace_id p user) s
  unfolding poll_user
  poll_user-Returns p user s =
      Returns-bind _ _ s (on_world-Returns _ s (quiet.get_user_tweets_returns _ _ s.world))
        λ tweets u e.
          handled-Returns user tweets _ u
            (quiet.get_user_tweets_complete _ _ s.world u.world tweets (asked _ _ s u tweets e))

  check_users-Returns :
      (users : Option (List User)) (s : State W)
      → Returns (check_users twitter repo worker trace_id users) s
  unfolding check_users
  check_users-Returns none s = Returns-fail _ s
  check_users-Returns (some users) s = Returns-pure tt s

  user_at-Returns :
      (u : Option User) (s : State W)
      → u ≢ none
      → Returns (user_at twitter repo worker trace_id u s.poller) s
  unfolding user_at
  user_at-Returns none s h = absurd (h refl)
  user_at-Returns (some user) s h = poll_user-Returns s.poller user s

  poll_current-Returns :
      (s : State W)
      → s.poller.user_index < length (users_of s.poller)
      → Returns (poll_current twitter repo worker trace_id) s
  unfolding poll_current get_poller ◌>>=◌
  poll_current-Returns s lt =
      let (user, e) = get_elem?_of_lt (users_of s.poller) s.poller.user_index lt in
      record { at = (user_at-Returns _ s (λ nobody. cc (e, nobody))).at }

  -- After a refresh that succeeded there is a user at the start of the list.
  refresh_gives_users :
      (s u : State W)
      → s.poller.user_index ≡ 0
      → refresh_user_list twitter repo worker trace_id s ≡ (ok tt, u)
      → u.poller.user_index < length (users_of u.poller)
  unfolding refresh_user_list on_world set_users check_users pure fail ◌>>=◌
  refresh_gives_users s u start h =
      go (repo.get_with_followers s.world).0 (repo.get_with_followers s.world).1 refl
    where
      go :
          (r : Result (Option (List User))) (w : W)
          → repo.get_with_followers s.world ≡ (r, w)
          → u.poller.user_index < length (users_of u.poller)
      go (ok none) w e = cc (rw e at h)
      go (ok (some users)) w e =
          let h' = rw e at h in ground (arith, h', quiet.some_users s.world w users e)
      go (err why) w e = cc (rw e at h)
      go (panic why) w e = cc (rw e at h)

  refresh-Returns : (s : State W) → Returns (refresh_user_list twitter repo worker trace_id) s
  unfolding refresh_user_list set_users
  refresh-Returns s =
      Returns-match_call _ _ _ s (on_world-Returns _ s (quiet.get_with_followers_returns s.world))
        (λ users u _. Returns-bind _ _ u (record { at = tt }) λ _ v _. check_users-Returns users v)
        (λ e u _. Returns-bind _ _ u (record { at = tt }) λ _ v _. Returns-fail e v)

  restart-Returns : (s : State W) → Returns (restart twitter repo worker trace_id) s
  unfolding restart set_index
  restart-Returns s =
      Returns-bind _ _ s (record { at = tt })
        λ _ t e.
          Returns-match_call _ _ _ t (refresh-Returns t)
            (λ _ u e'. poll_current-Returns u (refresh_gives_users t u (ground (arith, e)) e'))
            (λ why u _. Returns-if _ _ _ u (Returns-pure tt u) (Returns-fail why u))

  -- Where the services do not panic, each answer of Twitter has its `Meta` and its `Raw`, there is no
  -- empty list of users, and the index lies within the users or one past the last, the call that
  -- `FetchTweets` guards by `recover` returns, so `recover` has nothing to catch.
  pub fetch_or_restart-Returns :
      (s : State W)
      → IsReady s.poller
      → Returns (fetch_or_restart twitter repo worker trace_id s.poller) s
  unfolding fetch_or_restart
  fetch_or_restart-Returns s h =
      elim (Bool-cases (length (users_of s.poller) == s.poller.user_index)) [
        | inl all ↦ rw all (restart-Returns s)
        | inr more ↦ rw more (poll_current-Returns s (ground arith))
      ]
