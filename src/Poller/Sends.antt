-- ===== src/Poller/Sends.antt =====
-- What one successful tick sends, and what it leaves in the poller.
use estrys.Common.{
  ℕ, suc, String, Bool-cases, ltb, if◌then◌else◌, some, List, [], ◌∷◌, ◌++◌, get_elem?, ◌≡◌, refl,
  sym, ap, ◌∙◌, inl, inr, arith, map, Option, none,
}
use mathlib.Core.List.{append_assoc, append-nil}
use estrys.Outcome.{Result, ok, Action, pure, ◌>>=◌, ◌>>◌, crash}
use estrys.Outcome.Inversion.{bind_ok, wrapping_ok}
use estrys.Models.{
  User, Actor, TweetObj, Timeline, TimelineStart, TimelineMeta, count_of, newest_of, tweets_of,
}
use estrys.Ports.{TwitterClient, UserRepository}
use estrys.Worker.Tasks.{Task, WorkerClient, new_send_tweet}
use estrys.Poller.Turns.{index-ne-length}
use estrys.Poller.{
  Poller, users_of, since, cursor, set_cursor, State, on_world, get_poller, set_index, save_cursor,
  recovering, recovered, send_to, handle_tweet, handle_tweets, handle_raw, handle_meta,
  handle_timeline, poll_user, user_at, poll_current, fetch_or_restart, fetch_tweets,
}

-- An observation of the queue of tasks, under which an enqueued task is put last, the followers of a
-- user are fixed, and reading them or a timeline queues nothing.
pub record IsObserved {W : Type 0} (queue : W → List Task) (followers : User → List Actor)
    (twitter : TwitterClient W) (repo : UserRepository W) (worker : WorkerClient W) : Type 0 where
  pub enqueue_appends :
      (task : Task) (w u : W) → worker.enqueue task w ≡ (ok tt, u) → queue u ≡ queue w ++ task ∷ []
  pub get_followers_reads :
      (user : User) (actors : List Actor) (w u : W)
      → repo.get_followers user w ≡ (ok actors, u)
      → (actors ≡ followers user) × (queue u ≡ queue w)
  pub get_user_tweets_reads :
      (id : String) (start : TimelineStart) (tweets : Timeline) (w u : W)
      → twitter.get_user_tweets id start w ≡ (ok tweets, u)
      → queue u ≡ queue w

-- One task for each follower, for each tweet in turn.
abbrev pub tasks_for : String → User → List Actor → List TweetObj → List Task
tasks_for trace_id user actors [] = []
tasks_for trace_id user actors (tweet ∷ tweets) =
    map (λ actor. new_send_tweet trace_id user actor tweet.id) actors
    ++ tasks_for trace_id user actors tweets

-- The poller after a user's turn
abbrev pub after_turn : Poller → User → Timeline → Poller
after_turn p user tweets = record p {
  user_cursors =
      if ltb 0 (count_of tweets)
      then set_cursor user.username (newest_of tweets) p.user_cursors
      else p.user_cursors;
  user_index = suc p.user_index;
}

recovered_ok :
    {S : Type 0} (r : Result (Unit {0})) (v : S) {u : S}
    → ◌≡◌ {A = Result (Unit {0}) × S} (recovered r, v) (ok tt, u)
    → ◌≡◌ {A = Result (Unit {0}) × S} (r, v) (ok tt, u)
recovered_ok r v h = ground arith

-- At a user's turn a tick polls that user.
fetch_tweets_at :
    {W : Type 0} (twitter : TwitterClient W) (repo : UserRepository W) (worker : WorkerClient W)
    (trace_id : String) (user : User) (s u : State W)
    → get_elem? (users_of s.poller) s.poller.user_index ≡ some user
    → fetch_tweets twitter repo worker trace_id s ≡ (ok tt, u)
    → poll_user twitter repo worker trace_id s.poller user s ≡ (ok tt, u)
unfolding fetch_tweets recovering fetch_or_restart poll_current get_poller user_at ◌>>=◌
fetch_tweets_at twitter repo worker trace_id user s u e h =
    recovered_ok _ _ (rw (index-ne-length _ _ user e, e) at h)

module _ {W : Type 0} (queue : W → List Task) (followers : User → List Actor)
    (twitter : TwitterClient W) (repo : UserRepository W) (worker : WorkerClient W)
    (trace_id : String) (observed : IsObserved queue followers twitter repo worker) where
  send_to-queue :
      (user : User) (id : String) (actors : List Actor) (w u : W)
      → send_to twitter repo worker trace_id user id actors w ≡ (ok tt, u)
      → queue u ≡ queue w ++ map (λ actor. new_send_tweet trace_id user actor id) actors
  unfolding send_to pure
  send_to-queue user id [] w u h = ground (arith, append-nil (queue w))
  send_to-queue user id (actor ∷ actors) w u h =
      let (_, v, first, rest) = bind_ok _ _ w (ap (λ r. r.0) h) in
      let sent = wrapping_ok _ _ w first in
      let later = map (λ actor. new_send_tweet trace_id user actor id) actors in
      send_to-queue user id actors v u (sym rest ∙ h)
      ∙ ap (λ q. q ++ later) (observed.enqueue_appends _ w v sent)
      ∙ append_assoc (queue w) _ later

  handle_tweets-queue :
      (user : User) (tweets : List TweetObj) (w u : W)
      → handle_tweets twitter repo worker trace_id user tweets w ≡ (ok tt, u)
      → queue u ≡ queue w ++ tasks_for trace_id user (followers user) tweets
  unfolding handle_tweets handle_tweet pure
  handle_tweets-queue user [] w u h = ground (arith, append-nil (queue w))
  handle_tweets-queue user (tweet ∷ tweets) w u h =
      let (_, v, first, rest) = bind_ok _ _ w (ap (λ r. r.0) h) in
      let (actors, x, read, sends) = bind_ok _ _ w (ap (λ r. r.0) first) in
      let (same, kept) = observed.get_followers_reads user actors w x (wrapping_ok _ _ w read) in
      let sent = send_to-queue user tweet.id actors x v (sym sends ∙ first) in
      handle_tweets-queue user tweets v u (sym rest ∙ h)
      ∙ ap (λ q. q ++ tasks_for trace_id user (followers user) tweets) (rw (same, kept) at sent)
      ∙ append_assoc (queue w) _ _

  on_world_ok :
      {A : Type 0} (m : Action W A) (s : State W) {a : A} {u : State W}
      → on_world m s ≡ (ok a, u)
      → (m s.world ≡ (ok a, u.world)) × (u.poller ≡ s.poller)
  unfolding on_world
  on_world_ok m s h = ground arith

  -- Fresh tweets are sent, and their newest id becomes the user's cursor.
  handle_fresh :
      (user : User) (newest : String) (tweets : List TweetObj) (s u : State W)
      → (on_world (handle_tweets twitter repo worker trace_id user tweets)
            >> save_cursor user.username newest)
          s
        ≡ (ok tt, u)
      → (queue u.world ≡ queue s.world ++ tasks_for trace_id user (followers user) tweets)
        × (u.poller ≡ record s.poller {
          user_cursors = set_cursor user.username newest s.poller.user_cursors;
        })
  unfolding save_cursor
  handle_fresh user newest tweets s u h =
      let (_, v, first, rest) = bind_ok _ _ s (ap (λ r. r.0) h) in
      let (sent, same) = on_world_ok _ s first in
      let end = sym rest ∙ h in
      let queued = handle_tweets-queue user tweets s.world v.world sent in
      ground (arith, end, same, queued)

  handle_meta-queue :
      (user : User) (meta : Option TimelineMeta) (raw : Option (List TweetObj)) (s u : State W)
      → handle_meta twitter repo worker trace_id user meta raw s ≡ (ok tt, u)
      → (queue u.world ≡ (
          if ltb 0 (count_of (record { meta = meta; raw = raw }))
          then queue s.world
            ++ tasks_for trace_id user
                (followers user)
                (tweets_of (record { meta = meta; raw = raw }))
          else queue s.world))
        × (record u.poller { user_index = suc s.poller.user_index }
            ≡ after_turn s.poller user (record { meta = meta; raw = raw }))
  unfolding handle_meta handle_raw pure crash
  handle_meta-queue user none raw s u h = cc h
  handle_meta-queue user (some meta) none s u h = elim (Bool-cases (ltb 0 meta.result_count)) [
    | inl fresh ↦ cc (rw fresh at h)
    | inr old ↦
        let same : s ≡ u = ap (λ r. r.1) (rw old at h) in rw old (rw same refl, rw same refl)
  ]
  handle_meta-queue user (some meta) (some tweets) s u h =
      elim (Bool-cases (ltb 0 meta.result_count)) [
        | inl fresh ↦
            let (queued, moved) = handle_fresh user meta.newest_id tweets s u (rw fresh at h) in
            rw fresh
              (queued, ap (λ (p : Poller). record p { user_index = suc s.poller.user_index }) moved)
        | inr old ↦
            let same : s ≡ u = ap (λ r. r.1) (rw old at h) in rw old (rw same refl, rw same refl)
      ]

  handle_timeline-queue :
      (user : User) (tweets : Timeline) (s u : State W)
      → handle_timeline twitter repo worker trace_id user tweets s ≡ (ok tt, u)
      → (queue u.world ≡ (
          if ltb 0 (count_of tweets)
          then queue s.world ++ tasks_for trace_id user (followers user) (tweets_of tweets)
          else queue s.world))
        × (record u.poller { user_index = suc s.poller.user_index }
            ≡ after_turn s.poller user tweets)
  unfolding handle_timeline
  handle_timeline-queue user tweets s u h = handle_meta-queue user tweets.meta tweets.raw s u h

  set_index_ok :
      (i : ℕ) (x u : State W)
      → set_index i x ≡ (ok tt, u)
      → (u.world ≡ x.world) × (u.poller ≡ record x.poller { user_index = i })
  unfolding set_index
  set_index_ok i x u h = ground arith

  -- The turn after Twitter has answered
  answered :
      (user : User) (tweets : Timeline) (v u : State W)
      → (handle_timeline twitter repo worker trace_id user tweets
            >> set_index (suc v.poller.user_index))
          v
        ≡ (ok tt, u)
      → (queue u.world ≡ (
          if ltb 0 (count_of tweets)
          then queue v.world ++ tasks_for trace_id user (followers user) (tweets_of tweets)
          else queue v.world))
        × (u.poller ≡ after_turn v.poller user tweets)
  answered user tweets v u h =
      let (_, x, handled, last) = bind_ok _ _ v (ap (λ r. r.0) h) in
      let (queued, moved) = handle_timeline-queue user tweets v x handled in
      let (world, poller) = set_index_ok _ x u (sym last ∙ h) in
      (ap queue world ∙ queued, poller ∙ moved)

  -- A successful turn: Twitter was asked for the user's tweets since the cursor, one task was queued
  -- for each follower and tweet in order, and the poller moves on to the next user.
  poll_user-queue :
      (user : User) (s u : State W)
      → poll_user twitter repo worker trace_id s.poller user s ≡ (ok tt, u)
      → (tweets : Timeline) × (w : W) × (twitter.get_user_tweets user.id
            (since s.poller.start (cursor user.username s.poller.user_cursors))
            s.world
          ≡ (ok tweets, w))
        × (queue u.world ≡ (
            if ltb 0 (count_of tweets)
            then queue s.world ++ tasks_for trace_id user (followers user) (tweets_of tweets)
            else queue s.world))
        × (u.poller ≡ after_turn s.poller user tweets)
  unfolding poll_user
  poll_user-queue user s u h =
      let (tweets, v, first, rest) = bind_ok _ _ s (ap (λ r. r.0) h) in
      let (asked, same) = on_world_ok _ s first in
      let kept = observed.get_user_tweets_reads user.id _ tweets s.world v.world asked in
      let (queued, moved) = answered user tweets v u (
        ap
          (λ (p : Poller).
            (handle_timeline twitter repo worker trace_id user tweets
                >> set_index (suc p.user_index))
              v)
          same
        ∙ sym rest
        ∙ h) in
      (tweets, v.world, asked, rw kept at queued, rw same at moved)

  -- Where an enqueued task is put last in the queue and reading followers or timelines queues
  -- none, and a user's followers are fixed, a tick that succeeds at a user's turn has asked
  -- Twitter for the tweets since the user's cursor, or since the start, has queued one task for
  -- each tweet and follower in order and no other, and leaves the cursor at the newest tweet, if
  -- there are new ones, and the turn with the next user.
  pub fetch_tweets-queue :
      (user : User) (s u : State W)
      → get_elem? (users_of s.poller) s.poller.user_index ≡ some user
      → fetch_tweets twitter repo worker trace_id s ≡ (ok tt, u)
      → (tweets : Timeline) × (w : W) × (twitter.get_user_tweets user.id
            (since s.poller.start (cursor user.username s.poller.user_cursors))
            s.world
          ≡ (ok tweets, w))
        × (queue u.world ≡ (
            if ltb 0 (count_of tweets)
            then queue s.world ++ tasks_for trace_id user (followers user) (tweets_of tweets)
            else queue s.world))
        × (u.poller ≡ after_turn s.poller user tweets)
  fetch_tweets-queue user s u e h =
      poll_user-queue user s u (fetch_tweets_at twitter repo worker trace_id user s u e h)
