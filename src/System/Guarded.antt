-- ===== src/System/Guarded.antt =====
-- What the services keep of the world, and what the components that are built over them keep then.
pub mod Tweets
pub mod Requests
pub mod Tasks
pub mod Polls
use estrys.Common.{String, List, [], ◌∷◌, All, Option, none, some}
use estrys.Outcome.{Action, ◌>>=◌}
use estrys.Outcome.Keeps.{
  Keeps, Keeps-crash, Keeps-pure, Keeps-lift, Keeps-wrapping, Keeps-bind, keeps_rules,
}
use estrys.Models.{
  PrivateKey, UserMetrics, Url, PublicKey, User, Actor, Tweet, UserObj, TimelineStart,
}
use estrys.Activity.{Follow, Undo, Message}
use estrys.Ports.{CreateUserRequest}
use estrys.Worker.Tasks.{Task}
use estrys.Worker.Broker.{TaskHandler}
use estrys.Domain.Users.{
  no_such_user, with_metrics, with_profile, get_full_user, create_user_from_twitter, get_or_create,
  get_or_create_all, batch_create_users_from_ids, find_user, profile_of, create_if_missing,
  batch_create_users,
}
use estrys.System.{Program}

-- Every call of the services beside the two repositories of the database keeps `P`. The resolver and
-- the multiplexer call back what they are given, and nothing else.
pub record IsGuardedServices {W : Type 0} (p : Program W) (P : W → Type 0) : Type 0 where
  pub get_tweet : (id : String) → Keeps P (p.tweets.get_tweet id)
  pub store : (tweet : Tweet) → Keeps P (p.tweets.store tweet)
  pub generate_key : Keeps P p.keys.generate_key
  pub fetch_key : (id : String) → Keeps P (p.keys.fetch_key id)
  pub enqueue : (task : Task) → Keeps P (p.worker.enqueue task)
  pub post_inbox :
      (to : Actor) (from : User) (act : Message) → Keeps P (p.client.post_inbox to from act)
  pub get_user_tweets :
      (id : String) (start : TimelineStart) → Keeps P (p.twitter.get_user_tweets id start)
  pub get_tweets : (ids : List String) → Keeps P (p.twitter.get_tweets ids)
  pub get_user : (name : String) → Keeps P (p.twitter.get_user name)
  pub get_user_by_ids : (ids : List String) → Keeps P (p.twitter.get_user_by_ids ids)
  pub resolve :
      (on_follow : Follow → Action W (Unit {0})) (on_undo : Undo → Action W (Unit {0}))
      (on_delete : Action W (Unit {0})) (json : p.resolver.Json)
      → ((act : Follow) → Keeps P (on_follow act))
      → ((act : Undo) → Keeps P (on_undo act))
      → Keeps P on_delete
      → Keeps P (p.resolver.resolve on_follow on_undo on_delete json)
  pub process_task :
      (handlers : List (String × TaskHandler W)) (task : Task)
      → All (λ entry. (payload : _) → Keeps P (entry.1 payload)) handlers
      → Keeps P (p.mux.process_task handlers task)

-- So do the repositories, save that a follower is written for an actor that `Entitled` allows.
pub record IsGuarded {W : Type 0} (p : Program W) (P : W → Type 0) (Entitled : Actor → Type 0)
    : Type 0 where
  pub get : (name : String) → Keeps P (p.users.get name)
  pub get_followers : (user : User) → Keeps P (p.users.get_followers user)
  pub follow : (user : User) (actor : Actor) → Entitled actor → Keeps P (p.users.follow user actor)
  pub un_follow : (user : User) (actor : Actor) → Keeps P (p.users.un_follow user actor)
  pub create_user : (request : CreateUserRequest) → Keeps P (p.users.create_user request)
  pub get_with_followers : Keeps P p.users.get_with_followers
  pub get_actor : (url : Url) → Keeps P (p.actors.get url)
  pub create_actor : (url : Url) (key : PublicKey) → Keeps P (p.actors.create url key)
  pub services : IsGuardedServices p P

module _ {W : Type 0} (p : Program W) {P : W → Type 0} {Entitled : Actor → Type 0}
    (guarded : IsGuarded p P Entitled) where
  with_metrics-Keeps :
      (user : User) (obj : UserObj) (image : Url) (key : PrivateKey) (metrics : Option UserMetrics)
      → Keeps P (with_metrics p.library p.users p.keys p.twitter user obj image key metrics)
  unfolding with_metrics
  with_metrics-Keeps user obj image key none = Keeps-crash _
  with_metrics-Keeps user obj image key (some metrics) = Keeps-pure _

  pub get_full_user-Keeps :
      (name : String) → Keeps P (get_full_user p.library p.users p.keys p.twitter name)
  unfolding get_full_user no_such_user with_profile ◌>>=◌
  get_full_user-Keeps name =
      search (keeps_rules, with_metrics-Keeps, guarded.get, guarded.services.get_user)

  create_user_from_twitter-Keeps :
      (user : UserObj) → Keeps P (create_user_from_twitter p.library p.users p.keys p.twitter user)
  unfolding create_user_from_twitter
  create_user_from_twitter-Keeps user =
      Keeps-bind _ _ (Keeps-wrapping _ _ guarded.services.generate_key) λ key.
        Keeps-bind _ _ (Keeps-wrapping _ _ (Keeps-lift _))
          λ at. Keeps-wrapping _ _ (guarded.create_user _)

  get_or_create_all-Keeps :
      (found : List UserObj) → Keeps P (get_or_create_all p.library p.users p.keys p.twitter found)
  unfolding get_or_create_all get_or_create ◌>>=◌
  get_or_create_all-Keeps [] = Keeps-pure []
  get_or_create_all-Keeps (user ∷ rest) =
      let later = get_or_create_all-Keeps rest in
      search (keeps_rules, guarded.get, create_user_from_twitter-Keeps)

  pub batch_create_users_from_ids-Keeps :
      (ids : List String)
      → Keeps P (batch_create_users_from_ids p.library p.users p.keys p.twitter ids)
  unfolding batch_create_users_from_ids ◌>>=◌
  batch_create_users_from_ids-Keeps ids =
      search (keeps_rules, guarded.services.get_user_by_ids, get_or_create_all-Keeps)

  create_if_missing-Keeps :
      (row : Option User) (user : UserObj)
      → Keeps P (create_if_missing p.library p.users p.keys p.twitter row user)
  unfolding create_if_missing ◌>>=◌
  create_if_missing-Keeps none user = search (keeps_rules, create_user_from_twitter-Keeps)
  create_if_missing-Keeps (some row) user = Keeps-pure tt

  pub batch_create_users-Keeps :
      (names : List String) → Keeps P (batch_create_users p.library p.users p.keys p.twitter names)
  unfolding batch_create_users find_user profile_of ◌>>=◌
  batch_create_users-Keeps [] = Keeps-pure tt
  batch_create_users-Keeps (name ∷ names) =
      let later = batch_create_users-Keeps names in
      search (keeps_rules, guarded.get, guarded.services.get_user, create_if_missing-Keeps)
