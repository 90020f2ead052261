-- ===== src/System/Guarded/Polls.antt =====
-- A tick of the poller keeps what the services keep.
use estrys.Common.{ℕ, String, List, [], ◌∷◌, Option, none, some}
use estrys.Outcome.{Action, ◌>>=◌, crash}
use estrys.Outcome.Keeps.{Keeps-crash, Keeps, Keeps-pure, Keeps-fail, keeps_rules, Keeps-bind}
use estrys.Models.{User, Actor, TweetObj, TimelineMeta}
use estrys.Poller.{
  Poller, State, on_world, get_poller, set_users, set_index, save_cursor, recovering, check_users,
  refresh_user_list, send_to, handle_tweet, handle_tweets, handle_raw, handle_meta, handle_timeline,
  poll_user, user_at, poll_current, restart, fetch_or_restart, fetch_tweets,
}
use estrys.System.{Program, poll}
use estrys.System.Guarded.{IsGuarded}

module _ {W : Type 0} (P : W → Type 0) where
  -- The world of a state has the property.
  abbrev pub InWorld : State W → Type 0
  InWorld s = P s.world

  on_world-Keeps : {A : Type 0} (m : Action W A) → Keeps P m → Keeps InWorld (on_world m)
  unfolding on_world
  on_world-Keeps m k = record { at = λ s h. k.at s.world h }

  set_users-Keeps : (users : Option (List User)) → Keeps InWorld (set_users users)
  unfolding set_users
  set_users-Keeps users = record { at = λ s h. h }

  set_index-Keeps : (i : ℕ) → Keeps InWorld (set_index i)
  unfolding set_index
  set_index-Keeps i = record { at = λ s h. h }

  save_cursor-Keeps : (name newest : String) → Keeps InWorld (save_cursor name newest)
  unfolding save_cursor
  save_cursor-Keeps name newest = record { at = λ s h. h }

  get_poller-Keeps : Keeps InWorld get_poller
  unfolding get_poller
  get_poller-Keeps = record { at = λ s h. h }

module _ {W : Type 0} (p : Program W) {P : W → Type 0} {Entitled : Actor → Type 0}
    (guarded : IsGuarded p P Entitled) where
  send_to-Keeps :
      (user : User) (tweet_id : String) (followers : List Actor)
      → Keeps P (send_to p.twitter p.users p.worker p.trace_id user tweet_id followers)
  unfolding send_to ◌>>=◌
  send_to-Keeps user tweet_id [] = Keeps-pure tt
  send_to-Keeps user tweet_id (actor ∷ followers) =
      let later = send_to-Keeps user tweet_id followers in
      search (keeps_rules, guarded.services.enqueue)

  handle_tweets-Keeps :
      (user : User) (tweets : List TweetObj)
      → Keeps P (handle_tweets p.twitter p.users p.worker p.trace_id user tweets)
  unfolding handle_tweets handle_tweet ◌>>=◌
  handle_tweets-Keeps user [] = Keeps-pure tt
  handle_tweets-Keeps user (tweet ∷ tweets) =
      let later = handle_tweets-Keeps user tweets in
      search (keeps_rules, guarded.get_followers, send_to-Keeps)

  check_users-Keeps :
      (users : Option (List User))
      → Keeps (InWorld P) (check_users p.twitter p.users p.worker p.trace_id users)
  unfolding check_users
  check_users-Keeps none = Keeps-fail _
  check_users-Keeps (some users) = Keeps-pure tt

  refresh_user_list-Keeps :
      Keeps (InWorld P) (refresh_user_list p.twitter p.users p.worker p.trace_id)
  unfolding refresh_user_list ◌>>=◌
  refresh_user_list-Keeps =
      let read = on_world-Keeps P _ guarded.get_with_followers in
      search (keeps_rules, set_users-Keeps, check_users-Keeps)

  handle_raw-Keeps :
      (user : User) (newest : String) (raw : Option (List TweetObj))
      → Keeps (InWorld P) (handle_raw p.twitter p.users p.worker p.trace_id user newest raw)
  unfolding handle_raw ◌>>=◌
  handle_raw-Keeps user newest none = Keeps-crash _
  handle_raw-Keeps user newest (some tweets) =
      search (keeps_rules, on_world-Keeps, handle_tweets-Keeps, save_cursor-Keeps)

  handle_meta-Keeps :
      (user : User) (meta : Option TimelineMeta) (raw : Option (List TweetObj))
      → Keeps (InWorld P) (handle_meta p.twitter p.users p.worker p.trace_id user meta raw)
  unfolding handle_meta
  handle_meta-Keeps user none raw = Keeps-crash _
  handle_meta-Keeps user (some meta) raw = search (keeps_rules, handle_raw-Keeps)

  poll_user-Keeps :
      (poller : Poller) (user : User)
      → Keeps (InWorld P) (poll_user p.twitter p.users p.worker p.trace_id poller user)
  unfolding poll_user handle_timeline ◌>>=◌
  poll_user-Keeps poller user =
      search
        (
          keeps_rules, on_world-Keeps, guarded.services.get_user_tweets, handle_meta-Keeps,
          set_index-Keeps,
        )
        depth 12

  user_at-Keeps :
      (user : Option User) (poller : Poller)
      → Keeps (InWorld P) (user_at p.twitter p.users p.worker p.trace_id user poller)
  unfolding user_at estrys.Outcome.crash
  user_at-Keeps none poller = record { at = λ s h. h }
  user_at-Keeps (some user) poller = poll_user-Keeps poller user

  poll_current-Keeps : Keeps (InWorld P) (poll_current p.twitter p.users p.worker p.trace_id)
  unfolding poll_current ◌>>=◌
  poll_current-Keeps = search (keeps_rules, get_poller-Keeps, user_at-Keeps)

  fetch_or_restart-Keeps :
      (poller : Poller)
      → Keeps (InWorld P) (fetch_or_restart p.twitter p.users p.worker p.trace_id poller)
  unfolding fetch_or_restart restart ◌>>=◌
  fetch_or_restart-Keeps poller =
      search (keeps_rules, set_index-Keeps, refresh_user_list-Keeps, poll_current-Keeps)

  pub poll-Keeps : Keeps (InWorld P) (poll p)
  unfolding poll fetch_tweets recovering ◌>>=◌
  poll-Keeps = record {
    at = (Keeps-bind get_poller _ (get_poller-Keeps P) fetch_or_restart-Keeps).at;
  }
