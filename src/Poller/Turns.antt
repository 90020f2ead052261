-- ===== src/Poller/Turns.antt =====
-- The order of the turns: a turn that fails is taken again by the same user.
use estrys.Common.{
  ℕ, String, false, ◌==◌, some, List, [], ◌∷◌, length, get_elem?, lt_of_get_elem?, ◌≡◌, refl, ◌∙◌,
  arith,
}
use estrys.Outcome.{Error, err, ◌>>=◌}
use estrys.Models.{User, TimelineStart}
use estrys.Ports.{TwitterClient, UserRepository}
use estrys.Worker.Tasks.{WorkerClient}
use estrys.Poller.{
  users_of, since, cursor, State, Event, tick, done, on_world, get_poller, recovering, poll_user,
  user_at, poll_current, fetch_or_restart, fetch_tweets, run,
}

-- A user in the list is not one past its end.
pub index-ne-length :
    (users : List User) (i : ℕ) (user : User)
    → get_elem? users i ≡ some user
    → (length users == i) ≡ false
index-ne-length users i user e = ground (arith, lt_of_get_elem? users i e)

module _ {W : Type 0} (twitter : TwitterClient W) (repo : UserRepository W)
    (worker : WorkerClient W) (trace_id : String) (user : User)
    (fails : (start : TimelineStart) (w : W)
      → (e : Error) × (u : W) × (twitter.get_user_tweets user.id start w ≡ (err e, u))) where
  -- A tick at the turn of a user whose timeline cannot be read changes no field of the poller.
  fetch_tweets_fails :
      (s : State W)
      → get_elem? (users_of s.poller) s.poller.user_index ≡ some user
      → (fetch_tweets twitter repo worker trace_id s).1.poller ≡ s.poller
  unfolding fetch_tweets fetch_or_restart recovering get_poller poll_current user_at poll_user
      on_world ◌>>=◌
  fetch_tweets_fails s e =
      let p = s.poller in
      let (why, u, failed) = fails (since p.start (cursor user.username p.user_cursors)) s.world in
      rw (index-ne-length _ _ user e) (rw e (rw failed refl))

  -- While the timeline of the user whose turn it is cannot be read, whatever it is asked from, no
  -- other user is ever polled: the poller stays as it is over any number of ticks.
  pub run_fails :
      (events : List Event) (s : State W)
      → get_elem? (users_of s.poller) s.poller.user_index ≡ some user
      → (run twitter repo worker trace_id events s).poller ≡ s.poller
  unfolding run
  run_fails [] s e = refl
  run_fails (tick ∷ events) s e =
      let same = fetch_tweets_fails s e in
      run_fails events (fetch_tweets twitter repo worker trace_id s).1 (rw same e) ∙ same
  run_fails (done ∷ events) s e = refl
