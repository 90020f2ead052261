-- ===== src/Poller/Waiting.antt =====
-- The start of the poller: it waits until there are users, then its loop begins.
use estrys.Common.{ℕ, zero, suc, ◌≤◌, ◌<◌, String, Option, none, some, List, ◌≡◌, refl, arith}
use estrys.Outcome.{ok, err, no_user_to_poll, pure, fail, match_call, ◌>>=◌}
use estrys.Outcome.Errors.{is_no_user_to_poll}
use estrys.Models.{User}
use estrys.Ports.{TwitterClient, UserRepository}
use estrys.Worker.Tasks.{WorkerClient}
use estrys.Poller.{
  State, Event, on_world, set_users, set_start, check_users, refresh_user_list, wait_for_users,
  start_users, run, loop, start,
}

-- The list of users is nil when it is read for the first times, so many of them, and is there then.
abbrev pub FoundAfter : {W : Type 0} → UserRepository W → List User → ℕ → W → W → Type 0
FoundAfter repo users zero w u = repo.get_with_followers w ≡ (ok (some users), u)
FoundAfter {W} repo users (suc n) w u =
    (v : W) × (repo.get_with_followers w ≡ (ok none, v)) × FoundAfter repo users n v u

-- The state with a list of users
abbrev pub with_users : {W : Type 0} → Option (List User) → W → State W → State W
with_users users u s = record { poller = record s.poller { users = users }; world = u }

module _ {W : Type 0} (twitter : TwitterClient W) (repo : UserRepository W)
    (worker : WorkerClient W) (trace_id : String) (users : List User) where
  refresh_some :
      (s : State W) (u : W)
      → repo.get_with_followers s.world ≡ (ok (some users), u)
      → refresh_user_list twitter repo worker trace_id s ≡ (ok tt, with_users (some users) u s)
  unfolding refresh_user_list on_world set_users check_users match_call pure ◌>>=◌
  refresh_some s u h = rw h refl

  refresh_none :
      (s : State W) (v : W)
      → repo.get_with_followers s.world ≡ (ok none, v)
      → refresh_user_list twitter repo worker trace_id s
        ≡ (err no_user_to_poll, with_users none v s)
  unfolding refresh_user_list on_world set_users check_users match_call fail ◌>>=◌
  refresh_none s v h = rw h refl

  wait_for_users_found :
      (n fuel : ℕ) (s : State W) (u : W)
      → FoundAfter repo users n s.world u
      → n < fuel
      → wait_for_users twitter repo worker trace_id fuel s ≡ (ok tt, with_users (some users) u s)
  unfolding wait_for_users match_call pure is_no_user_to_poll
  wait_for_users_found n zero s u found lt = absurd (omega arith)
  wait_for_users_found zero (suc fuel) s u found lt = rw (refresh_some s u found) refl
  wait_for_users_found (suc n) (suc fuel) s u (v, empty, found) lt =
      rw (refresh_none s v empty)
        (wait_for_users_found n fuel (with_users none v s) u found (omega arith))

  start_users_found :
      (n fuel : ℕ) (s : State W) (u : W)
      → FoundAfter repo users n s.world u
      → n ≤ fuel
      → start_users twitter repo worker trace_id fuel s ≡ (ok tt, with_users (some users) u s)
  unfolding start_users match_call pure is_no_user_to_poll
  start_users_found zero fuel s u found le = rw (refresh_some s u found) refl
  start_users_found (suc n) fuel s u (v, empty, found) le =
      rw (refresh_none s v empty)
        (wait_for_users_found n fuel (with_users none v s) u found (omega arith))

  -- Once the list of users is there, after any number of readings without one, the wait ends, with as
  -- much fuel as there were such readings, and the loop runs from the instant of the start.
  pub start_found :
      (n fuel now : ℕ) (events : List Event) (s : State W) (u : W)
      → FoundAfter repo users n s.world u
      → n ≤ fuel
      → start twitter repo worker trace_id fuel now events s ≡ (
        ok tt,
        run twitter repo worker trace_id events
            (record { poller = record s.poller { users = some users; start = now }; world = u }),
      )
  unfolding start set_start loop match_call pure ◌>>=◌
  start_found n fuel now events s u found le = rw (start_users_found n fuel s u found le) refl
