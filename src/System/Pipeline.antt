-- ===== src/System/Pipeline.antt =====
-- A tweet from the tick that finds it to the post at the follower's server.
use estrys.Common.{
  ℕ, zero, suc, ◌≤◌, String, Bool, true, false, ◌⊎◌, if◌then◌else◌, some, List, [], ◌∷◌, ◌++◌, map,
  length, get_elem?, lt_of_get_elem?, Any, ◌≡◌, refl, sym, ap, subst, ◌∙◌, inl, inr, arith,
}
use estrys.Outcome.{Result, ok}
use estrys.Outcome.Fallible.{ok_injective}
use estrys.Models.{PublicKey, User, Actor, TweetObj, Timeline, tweets_of}
use estrys.Activity.{VocabLibrary, Create, create}
use estrys.Ports.{
  Library, UrlGenerator, TwitterClient, UserRepository, ActorRepository, TweetService, VocabService,
  ActivityPubClient,
}
use estrys.Worker.Tasks.{SendTweetInput, send_tweet, Task, WorkerClient, new_send_tweet}
use estrys.Worker.Handlers.{Decoder, handle_send_tweet}
use estrys.Worker.Handlers.Delivery.{Delivered}
use estrys.Worker.Broker.{ServeMux, registered, carry_out}
use estrys.Worker.Broker.Laws.{IsServeMux, carried_out}
use estrys.Poller.{users_of, since, cursor, State, fetch_tweets}
use estrys.Poller.Sends.{IsObserved, tasks_for, fetch_tweets-queue}
use estrys.Federation.{HttpLibrary, new_activity_pub_client}
use estrys.Federation.Laws.{Posted}
use estrys.Vocab.{Serializer, TypeResolver, new_vocab_service}
use estrys.Vocab.Laws.{IsResolver, IsCreate}
use estrys.Vocab.Delivery.{IsHttpClient, handle_send_tweet-Delivered}

-- The item is one of the list.
abbrev pub IsIn : {A : Type 0} → A → List A → Type 0
IsIn x = Any (λ y. y ≡ x)

module _ {A : Type 0} where
  get_elem?-append :
      (xs ys : List A) (i : ℕ) (x : A) → length xs ≤ i → get_elem? (xs ++ ys) i ≡ some x → IsIn x ys
  get_elem?-append [] [] i x h e = cc e
  get_elem?-append [] (y ∷ ys) zero x h e = inl (ground (arith, e))
  get_elem?-append [] (y ∷ ys) (suc i) x h e = inr (get_elem?-append [] ys i x (omega arith) e)
  get_elem?-append (z ∷ xs) ys zero x h e = absurd (omega (arith, h))
  get_elem?-append (z ∷ xs) ys (suc i) x h e = get_elem?-append xs ys i x (omega (arith, h)) e

  IsIn-append : (xs ys : List A) (x : A) → IsIn x (xs ++ ys) → IsIn x xs ⊎ IsIn x ys
  IsIn-append [] ys x h = inr h
  IsIn-append (z ∷ xs) ys x (inl e) = inl (inl e)
  IsIn-append (z ∷ xs) ys x (inr h) = elim (IsIn-append xs ys x h) [
    | inl left ↦ inl (inr left)
    | inr right ↦ inr right
  ]

module _ (trace_id : String) (user : User) where
  -- The task sends one of the tweets to one of the actors.
  IsSend : List Actor → List TweetObj → Task → Type 0
  IsSend actors tweets task =
      (tweet : TweetObj) × IsIn tweet tweets
      × (actor : Actor) × IsIn actor actors
      × (new_send_tweet trace_id user actor tweet.id ≡ task)

  sends_to :
      (tweet : TweetObj) (actors : List Actor) (task : Task)
      → IsIn task (map (λ actor. new_send_tweet trace_id user actor tweet.id) actors)
      → (actor : Actor) × IsIn actor actors × (new_send_tweet trace_id user actor tweet.id ≡ task)
  sends_to tweet [] task h = absurd h
  sends_to tweet (actor ∷ actors) task (inl e) = (actor, inl refl, e)
  sends_to tweet (actor ∷ actors) task (inr h) =
      let (found, is_in, e) = sends_to tweet actors task h in (found, inr is_in, e)

  tasks_for-IsSend :
      (actors : List Actor) (tweets : List TweetObj) (task : Task)
      → IsIn task (tasks_for trace_id user actors tweets)
      → IsSend actors tweets task
  unfolding IsSend
  tasks_for-IsSend actors [] task h = absurd h
  tasks_for-IsSend actors (tweet ∷ tweets) task h =
      elim (IsIn-append (map (λ actor. new_send_tweet trace_id user actor tweet.id) actors) _ task
        h) [
          | inl now ↦
              let (actor, follows, e) = sends_to tweet actors task now in
              (tweet, inl refl, actor, follows, e)
          | inr later ↦
              let (found, is_in, actor, follows, e) = tasks_for-IsSend actors tweets task later in
              (found, inr is_in, actor, follows, e)
        ]

  -- A task that a tick has added to the queue
  added_task :
      (fresh : Bool) (actors : List Actor) (tweets : List TweetObj) (before after : List Task)
      (i : ℕ) (task : Task)
      → after ≡ (if fresh then before ++ tasks_for trace_id user actors tweets else before)
      → length before ≤ i
      → get_elem? after i ≡ some task
      → IsSend actors tweets task
  added_task true actors tweets before after i task e le found =
      tasks_for-IsSend actors tweets task (get_elem?-append before _ i task le (rw e at found))
  added_task false actors tweets before after i task e le found =
      absurd (omega (arith, le, lt_of_get_elem? before i (rw e at found)))

module _ {W : Type 0} (library : Library) (vocab : VocabLibrary) (decoder : Decoder)
    (urls : UrlGenerator) (serializer : Serializer) (resolver : TypeResolver)
    (format_pub_key : PublicKey → Result String) (users : UserRepository W)
    (actors : ActorRepository W) (tweets : TweetService W) (http : HttpLibrary W) (now : String)
    (client : IsHttpClient http) (is : IsResolver resolver) (mux : ServeMux W)
    (is_mux : IsServeMux mux)
    (decodes : (input : SendTweetInput)
      → decoder.send_tweet_input (send_tweet input) ≡ ok input) where
  abbrev service : VocabService
  service = new_vocab_service library urls serializer resolver format_pub_key

  abbrev poster : ActivityPubClient W
  poster = new_activity_pub_client library vocab urls http now

  -- The tweet was saved, and its note was signed, posted to this follower and accepted by its server.
  pub record Sent (user : User) (actor : Actor) (tweet_id : String) (task : Task) (w u : W)
      : Type 0 where
    pub delivered :
        Delivered library vocab decoder service users actors tweets poster task.payload w u
    pub is_tweet : delivered.input.tweet_id ≡ tweet_id
    pub is_user : delivered.input.from ≡ user.username
    pub is_follower : delivered.input.to ≡ actor.url
    pub activity : Create
    pub is_activity :
        IsCreate library urls serializer resolver format_pub_key delivered.user.username
          delivered.tweet activity
    pub posted :
        Posted library vocab urls http now delivered.actor delivered.user
          (create activity)
          delivered.before
          u

  carried_send :
      (trace_id : String) (user : User) (actor : Actor) (tweet_id : String) (w u : W)
      → carry_out library vocab decoder service users actors tweets poster mux
          (new_send_tweet trace_id user actor tweet_id)
          w
        ≡ (ok tt, u)
      → Sent user actor tweet_id (new_send_tweet trace_id user actor tweet_id) w u
  unfolding registered new_send_tweet
  carried_send trace_id user actor tweet_id w u h =
      let task = new_send_tweet trace_id user actor tweet_id in
      let run =
        carried_out library vocab decoder service users actors tweets poster mux is_mux
          (handle_send_tweet library vocab decoder service users actors tweets poster) task w u refl
          h in
      let (d, c, is_create, posted) =
        handle_send_tweet-Delivered library vocab decoder urls serializer resolver format_pub_key
          users actors tweets http now client is task.payload w u run in
      let same = ok_injective (sym d.is_input ∙ decodes _) in
      record {
        delivered = d;
        is_tweet = ap (λ i. i.tweet_id) same;
        is_user = ap (λ i. i.from) same;
        is_follower = ap (λ i. i.to) same;
        activity = c;
        is_activity = is_create;
        posted = posted;
      }

  -- Where the queue, the multiplexer, the decoder and the HTTP client do what they are for, and a user's
  -- followers are fixed, each task that a tick has added to the queue, once the worker has carried it out
  -- without an error, at whatever time, has saved a tweet that Twitter gave at that tick for the user whose
  -- turn it was, and posted its note, signed in the name of that user, to a follower of the user, whose
  -- server accepted it.
  pub fetch_tweets-carry_out :
      (queue : W → List Task) (followers : User → List Actor) (twitter : TwitterClient W)
      (worker : WorkerClient W) (trace_id : String)
      (observed : IsObserved queue followers twitter users worker) (user : User) (s t : State W)
      (task : Task) (i : ℕ) (w u : W)
      → get_elem? (users_of s.poller) s.poller.user_index ≡ some user
      → fetch_tweets twitter users worker trace_id s ≡ (ok tt, t)
      → length (queue s.world) ≤ i
      → get_elem? (queue t.world) i ≡ some task
      → carry_out library vocab decoder service users actors tweets poster mux task w ≡ (ok tt, u)
      → (answer : Timeline) × (v : W) × (twitter.get_user_tweets user.id
            (since s.poller.start (cursor user.username s.poller.user_cursors))
            s.world
          ≡ (ok answer, v))
        × (tweet : TweetObj) × IsIn tweet (tweets_of answer)
        × (actor : Actor) × IsIn actor (followers user)
        × Sent user actor tweet.id task w u
  unfolding IsSend
  fetch_tweets-carry_out queue followers twitter worker trace_id observed user s t task i w u turn
        done added found run =
      let (answer, v, asked, queued, _) =
        fetch_tweets-queue queue followers twitter users worker trace_id observed user s t turn
          done in
      let (tweet, given, actor, follows, same) =
        added_task trace_id user _ (followers user) (tweets_of answer) (queue s.world)
          (queue t.world) i task queued added found in
      let sent = carried_send trace_id user actor tweet.id w u (rw (sym same) at run) in
      (
        answer,
        v,
        asked,
        tweet,
        given,
        actor,
        follows,
        subst (λ x. Sent user actor tweet.id x w u) same sent,
      )
