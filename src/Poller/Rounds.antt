-- ===== src/Poller/Rounds.antt =====
-- How long the poller keeps a list of users: the rows of the join, one for each follower.
use estrys.Common.{
  inl, inr, ℕ, zero, suc, ◌+◌, ◌≤◌, String, some, List, [], ◌∷◌, ◌++◌, length, length-append,
  get_elem?, get_elem?_of_lt, ◌≡◌, refl, ap, subst, ◌∙◌, arith, Option, none,
}
use estrys.Outcome.{Result, Action, ok, err, panic, pure, fail, match_call, ◌>>=◌, ◌>>◌}
use estrys.Outcome.Inversion.{run_cases}
use estrys.Outcome.Keeps.{Keeps-crash, Keeps, Keeps-pure, Keeps-if, Keeps-bind}
use estrys.Models.{User, Actor, Timeline, TimelineMeta, TweetObj}
use estrys.Ports.{TwitterClient, UserRepository}
use estrys.Worker.Tasks.{WorkerClient}
use estrys.Poller.{
  since, cursor, handle_raw, handle_meta, Poller, users_of, State, Event, tick, on_world,
  get_poller, set_users, set_index, save_cursor, recovering, check_users, refresh_user_list,
  handle_timeline, poll_user, user_at, poll_current, fetch_or_restart, fetch_tweets, run,
}
use estrys.Poller.Turns.{index-ne-length}

-- A user, once for each of these followers
abbrev pub repeated : User → List Actor → List User
repeated user [] = []
repeated user (actor ∷ actors) = user ∷ repeated user actors

-- The rows that an inner join of the users with their followers gives
abbrev pub joined : List (User × List Actor) → List User
joined [] = []
joined ((user, actors) ∷ rest) = repeated user actors ++ joined rest

-- How many followers there are in all
abbrev pub follower_count : List (User × List Actor) → ℕ
follower_count [] = 0
follower_count ((user, actors) ∷ rest) = length actors + follower_count rest

abbrev pub ticks : ℕ → List Event
ticks zero = []
ticks (suc n) = tick ∷ ticks n

length-repeated :
    (user : User) (actors : List Actor) → length (repeated user actors) ≡ length actors
length-repeated user [] = refl
length-repeated user (actor ∷ actors) = ap suc (length-repeated user actors)

length-joined : (table : List (User × List Actor)) → length (joined table) ≡ follower_count table
length-joined [] = refl
length-joined ((user, actors) ∷ rest) = omega (
  arith,
  length-append (repeated user actors) (joined rest),
  length-repeated user actors,
  length-joined rest,
)

-- One for a tick that succeeds
abbrev pub turn : Result (Unit {0}) → ℕ
turn (ok done) = 1
turn (err e) = 0
turn (panic why) = 0

module _ {W : Type 0} (twitter : TwitterClient W) (repo : UserRepository W)
    (worker : WorkerClient W) (trace_id : String) (users : List User) (i : ℕ) where
  -- The list is this one, and the index is there.
  IsAt : State W → Type 0
  IsAt s = (users_of s.poller ≡ users) × (s.poller.user_index ≡ i)

  handle_meta-IsAt :
      (user : User) (meta : Option TimelineMeta) (raw : Option (List TweetObj))
      → Keeps IsAt (handle_meta twitter repo worker trace_id user meta raw)
  unfolding handle_meta handle_raw on_world save_cursor IsAt
  handle_meta-IsAt user none raw = Keeps-crash _
  handle_meta-IsAt user (some meta) none = Keeps-if _ _ _ (Keeps-crash _) (Keeps-pure tt)
  handle_meta-IsAt user (some meta) (some tweets) =
      Keeps-if _ _ _ (Keeps-bind _ _ (record { at = λ s h. h }) (λ _. record { at = λ s h. h }))
        (Keeps-pure tt)

  asking-IsAt : {A : Type 0} (m : Action W A) → Keeps IsAt (on_world m)
  unfolding on_world IsAt
  asking-IsAt m = record { at = λ s h. h }

  -- The list stays, and the index moves on by one exactly after a turn that succeeds.
  Moved : Result (Unit {0}) × State W → Type 0
  Moved r = (users_of r.1.poller ≡ users) × (r.1.poller.user_index ≡ turn r.0 + i)

  stays : (r : Result (Unit {0})) (u : State W) → turn r ≡ 0 → IsAt u → Moved (r, u)
  unfolding Moved IsAt
  stays r u no_turn (same, index) = (same, omega (arith, index, no_turn))

  after-IsAt :
      {A : Type 0} (m : Action (State W) A) (s u : State W) (r : Result A)
      → Keeps IsAt m
      → m s ≡ (r, u)
      → IsAt s
      → IsAt u
  after-IsAt m s u r keeps e h = subst IsAt (ap (λ p. p.1) e) (keeps.at s h)

  handled-Moved :
      (user : User) (tweets : Timeline) (s : State W)
      → IsAt s
      → Moved ((handle_timeline twitter repo worker trace_id user tweets >> set_index (suc i)) s)
  unfolding handle_timeline set_index fail match_call ◌>>=◌ Moved IsAt
  handled-Moved user tweets s h =
      let m = handle_meta twitter repo worker trace_id user tweets.meta tweets.raw in
      let keeps = handle_meta-IsAt user tweets.meta tweets.raw in
      elim (run_cases m s) [
        | inl (done, u, e) ↦
            let same : IsAt u = after-IsAt m s u _ keeps e h in rw e (same.0, omega arith)
        | inr (inl (why, u, e)) ↦ rw e (stays (err why) u refl (after-IsAt m s u _ keeps e h))
        | inr (inr (why, u, e)) ↦ rw e (stays (panic why) u refl (after-IsAt m s u _ keeps e h))
      ]

  poll_user-Moved :
      (p : Poller) (user : User) (s : State W)
      → p.user_index ≡ i
      → IsAt s
      → Moved (poll_user twitter repo worker trace_id p user s)
  unfolding poll_user match_call fail ◌>>=◌ Moved IsAt
  poll_user-Moved p user s is_i h =
      let start = since p.start (cursor user.username p.user_cursors) in
      let m = on_world (twitter.get_user_tweets user.id start) in
      let keeps = asking-IsAt (twitter.get_user_tweets user.id start) in
      elim (run_cases m s) [
        | inl (tweets, u, e) ↦
            rw (e, is_i) (handled-Moved user tweets u (after-IsAt m s u _ keeps e h))
        | inr (inl (why, u, e)) ↦ rw e (stays (err why) u refl (after-IsAt m s u _ keeps e h))
        | inr (inr (why, u, e)) ↦ rw e (stays (panic why) u refl (after-IsAt m s u _ keeps e h))
      ]

  recovering-Moved :
      (m : Action (State W) (Unit {0})) (s : State W) → Moved (m s) → Moved (recovering m s)
  unfolding recovering Moved
  recovering-Moved m s h = elim (run_cases m s) [
    | inl (done, u, e) ↦ rw e (rw e at h)
    | inr (inl (why, u, e)) ↦ rw e (rw e at h)
    | inr (inr (why, u, e)) ↦ rw e (rw e at h)
  ]

module _ {W : Type 0} (twitter : TwitterClient W) (repo : UserRepository W)
    (worker : WorkerClient W) (trace_id : String) where
  fetch_tweets-Moved :
      (s : State W) (user : User)
      → get_elem? (users_of s.poller) s.poller.user_index ≡ some user
      → Moved twitter repo worker trace_id
          (users_of s.poller)
          s.poller.user_index
          (fetch_tweets twitter repo worker trace_id s)
  unfolding fetch_tweets fetch_or_restart get_poller poll_current user_at ◌>>=◌ match_call IsAt
  fetch_tweets-Moved s user e =
      recovering-Moved twitter repo worker trace_id (users_of s.poller) s.poller.user_index _ s (
        rw (index-ne-length _ _ user e) (
          rw e (
            poll_user-Moved twitter repo worker trace_id (users_of s.poller) s.poller.user_index
              s.poller user s refl (refl, refl))))

  -- How many of the next ticks succeed
  abbrev pub turns : ℕ → State W → ℕ
  turns zero s = 0
  turns (suc n) s = let (r, t) = fetch_tweets twitter repo worker trace_id s in turns n t + turn r

  -- While there are entries left in the list, it is not read again, and each success takes one entry.
  run_keeps_users :
      (n : ℕ) (s : State W)
      → s.poller.user_index + n ≤ length (users_of s.poller)
      → (users_of (run twitter repo worker trace_id (ticks n) s).poller ≡ users_of s.poller)
        × ((run twitter repo worker trace_id (ticks n) s).poller.user_index
            ≡ s.poller.user_index + turns n s)
  unfolding run Moved
  run_keeps_users zero s h = (refl, omega arith)
  run_keeps_users (suc n) s h =
      let (user, e) = get_elem?_of_lt (users_of s.poller) s.poller.user_index (omega arith) in
      let (same, moved) = fetch_tweets-Moved s user e in
      let (r, t) = fetch_tweets twitter repo worker trace_id s in
      let (kept, index) = run_keeps_users n t (omega (arith, ap length same, moved, turn_le r)) in
      (kept ∙ same, omega (arith, index, moved))
    where
      turn_le : (r : Result (Unit {0})) → turn r ≤ 1
      turn_le (ok done) = omega arith
      turn_le (err e) = omega arith
      turn_le (panic why) = omega arith

  refreshed :
      (users : List User) (s : State W) (u : W)
      → repo.get_with_followers s.world ≡ (ok (some users), u)
      → (users_of (refresh_user_list twitter repo worker trace_id s).1.poller ≡ users)
        × ((refresh_user_list twitter repo worker trace_id s).1.poller.user_index
            ≡ s.poller.user_index)
  unfolding refresh_user_list on_world set_users check_users match_call pure ◌>>=◌
  refreshed users s u read = rw read (refl, refl)

  -- Where the database answers the join with one row for each follower, the list that was read is kept
  -- for as many ticks as there are followers in all, whatever the ticks meet, and the index moves through
  -- it by one entry for each tick that succeeds, and not otherwise.
  pub run_refreshed :
      (table : List (User × List Actor)) (n : ℕ) (s : State W) (u : W)
      → repo.get_with_followers s.world ≡ (ok (some (joined table)), u)
      → s.poller.user_index ≡ 0
      → n ≤ follower_count table
      → (users_of
            (run twitter repo worker trace_id
              (ticks n)
              (refresh_user_list twitter repo worker trace_id s).1).poller
          ≡ joined table)
        × ((run twitter repo worker trace_id
              (ticks n)
              (refresh_user_list twitter repo worker trace_id s).1).poller.user_index
            ≡ turns n (refresh_user_list twitter repo worker trace_id s).1)
  run_refreshed table n s u read start le =
      let (same, index) = refreshed (joined table) s u read in
      let (kept, moved) =
        run_keeps_users n _ (omega (arith, ap length same, length-joined table, index)) in
      (kept ∙ same, omega (arith, moved, index, start))
