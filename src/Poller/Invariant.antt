-- ===== src/Poller/Invariant.antt =====
-- The index of the poller stays within the list of users, so `c.users[c.userIndex]` is never out of
-- range.
use estrys.Common.{
  ℕ, suc, ◌≤◌, ◌<◌, String, Bool-cases, ◌==◌, if◌then◌else◌, Option, none, some, List, [], ◌∷◌,
  length, get_elem?, lt_of_get_elem?, ◌≡◌, refl, inl, inr, arith,
}
use estrys.Outcome.{Error, no_user_to_poll, Action, pure, fail, crash, ◌>>=◌}
use estrys.Outcome.Keeps.{
  Keeps-crash, Keeps, Keeps-pure, Keeps-fail, Keeps-if, Keeps-match_call, Keeps-bind, Leads,
  Leads-bind, Leads-match_call,
}
use estrys.Outcome.Errors.{is_no_user_to_poll}
use estrys.Models.{User, Timeline, TimelineMeta, TweetObj}
use estrys.Ports.{TwitterClient, UserRepository}
use estrys.Worker.Tasks.{WorkerClient}
use estrys.Poller.{
  Poller, users_of, State, Event, tick, done, on_world, get_poller, set_users, set_index,
  save_cursor, recovering, refresh_user_list, check_users, handle_raw, handle_meta, handle_timeline,
  poll_user, user_at, poll_current, restart, fetch_or_restart, fetch_tweets, run,
}

-- The index names a user, or is one past the last.
abbrev pub IsReady : Poller → Type 0
IsReady p = p.user_index ≤ length (users_of p)

module _ {W : Type 0} (users : List User) where
  -- A state with these users, whose index lies within them
  abbrev Within : State W → Type 0
  Within s = (users_of s.poller ≡ users) × (s.poller.user_index ≤ length users)

  Within-on_world : {A : Type 0} (m : Action W A) → Keeps Within (on_world m)
  unfolding on_world
  Within-on_world m = record { at = λ s h. h }

  Within-save_cursor : (name newest : String) → Keeps Within (save_cursor name newest)
  unfolding save_cursor
  Within-save_cursor name newest = record { at = λ s h. h }

  Within-set_index : (i : ℕ) → i ≤ length users → Keeps Within (set_index i)
  unfolding set_index
  Within-set_index i le = record { at = λ s h. (h.0, le) }

module _ {W : Type 0} (twitter : TwitterClient W) (repo : UserRepository W)
    (worker : WorkerClient W) (trace_id : String) where
  handle_meta-Within :
      (users : List User) (user : User) (meta : Option TimelineMeta) (raw : Option (List TweetObj))
      → Keeps (Within users) (handle_meta twitter repo worker trace_id user meta raw)
  unfolding handle_meta handle_raw
  handle_meta-Within users user none raw = Keeps-crash _
  handle_meta-Within users user (some meta) none = Keeps-if _ _ _ (Keeps-crash _) (Keeps-pure tt)
  handle_meta-Within users user (some meta) (some tweets) =
      Keeps-if _ _ _ (Keeps-bind _ _ (Within-on_world users _) (λ _. Within-save_cursor users _ _))
        (Keeps-pure tt)

  handle_timeline-Within :
      (users : List User) (user : User) (tweets : Timeline)
      → Keeps (Within users) (handle_timeline twitter repo worker trace_id user tweets)
  unfolding handle_timeline
  handle_timeline-Within users user tweets = handle_meta-Within users user tweets.meta tweets.raw

  poll_user-Within :
      (users : List User) (p : Poller) (user : User)
      → p.user_index < length users
      → Keeps (Within users) (poll_user twitter repo worker trace_id p user)
  unfolding poll_user
  poll_user-Within users p user lt = Keeps-bind _ _ (Within-on_world users _) λ tweets.
      Keeps-bind _ _ (handle_timeline-Within users user tweets)
        λ _. Within-set_index users (suc p.user_index) lt

  user_at-IsReady :
      (u : Option User) (s : State W)
      → get_elem? (users_of s.poller) s.poller.user_index ≡ u
      → IsReady s.poller
      → IsReady (user_at twitter repo worker trace_id u s.poller s).1.poller
  unfolding user_at crash
  user_at-IsReady none s e h = h
  user_at-IsReady (some user) s e h =
      let lt = lt_of_get_elem? (users_of s.poller) s.poller.user_index e in
      let w = (poll_user-Within (users_of s.poller) s.poller user lt).at s (refl, h) in rw w.0 w.1

  poll_current-IsReady :
      (s : State W)
      → IsReady s.poller
      → IsReady (poll_current twitter repo worker trace_id s).1.poller
  unfolding poll_current get_poller ◌>>=◌
  poll_current-IsReady s h = user_at-IsReady _ s refl h

  abbrev AtStart : State W → Type 0
  AtStart s = s.poller.user_index ≡ 0

  abbrev Ready : State W → Type 0
  Ready s = IsReady s.poller

  check_users-AtStart :
      (users : Option (List User)) → Keeps AtStart (check_users twitter repo worker trace_id users)
  unfolding check_users
  check_users-AtStart none = Keeps-fail no_user_to_poll
  check_users-AtStart (some users) = Keeps-pure tt

  refresh_user_list-AtStart : Keeps AtStart (refresh_user_list twitter repo worker trace_id)
  unfolding refresh_user_list on_world set_users fail pure
  refresh_user_list-AtStart =
      Keeps-match_call _ _ _ (record { at = λ s h. h })
        (λ users. Keeps-bind _ _ (record { at = λ s h. h }) (λ _. check_users-AtStart users))
        (λ e. Keeps-bind _ _ (record { at = λ s h. h }) (λ _. Keeps-fail e))

  or_nothing-Ready :
      (e : Error) → Leads AtStart Ready (if is_no_user_to_poll e then pure tt else fail e)
  unfolding pure fail
  or_nothing-Ready e = elim (Bool-cases (is_no_user_to_poll e)) [
    | inl nobody ↦ rw nobody (record { at = λ s h. omega arith })
    | inr other ↦ rw other (record { at = λ s h. omega arith })
  ]

  restart-Ready : Leads (λ _. Unit) Ready (restart twitter repo worker trace_id)
  unfolding restart set_index
  restart-Ready =
      Leads-bind {Q = AtStart} _ _ (record { at = λ s h. refl })
        (λ _.
          Leads-match_call {Q = AtStart} _ _ _ (record { at = refresh_user_list-AtStart.at })
            (λ _. record { at = λ s h. poll_current-IsReady s (omega arith) }) or_nothing-Ready
            (λ s h. omega arith))
        (λ s h. omega arith)

  fetch_or_restart-Ready :
      (s : State W) → Ready s → Ready (fetch_or_restart twitter repo worker trace_id s.poller s).1
  unfolding fetch_or_restart
  fetch_or_restart-Ready s h =
      elim (Bool-cases (length (users_of s.poller) == s.poller.user_index)) [
        | inl all ↦ rw all (restart-Ready.at s tt)
        | inr more ↦ rw more (poll_current-IsReady s h)
      ]

  -- The index stays within the users over every tick: when it succeeds, when a call of the services
  -- fails, and when one panics.
  pub fetch_tweets-IsReady :
      (s : State W)
      → IsReady s.poller
      → IsReady (fetch_tweets twitter repo worker trace_id s).1.poller
  unfolding fetch_tweets recovering get_poller ◌>>=◌
  fetch_tweets-IsReady s h = fetch_or_restart-Ready s h

  -- From a state whose index lies within the users or one past the last, it does so over a whole
  -- run, whether the calls of the services succeed, fail or panic.
  pub run-IsReady :
      (events : List Event) (s : State W)
      → IsReady s.poller
      → IsReady (run twitter repo worker trace_id events s).poller
  unfolding run
  run-IsReady [] s h = h
  run-IsReady (tick ∷ events) s h = run-IsReady events _ (fetch_tweets-IsReady s h)
  run-IsReady (done ∷ events) s h = h
