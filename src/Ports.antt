-- ===== src/Ports.antt =====
-- The interfaces through which the components call one another and the services, over the state `W`
-- of the world outside a component: the Go interfaces of the packages, the database and the cache
-- behind them, and the library functions that parse and print. What an interface's implementation
-- must satisfy for a theorem is stated beside the theorem.
use estrys.Common.{String, ℕ, Bool, Option, List}
use estrys.Outcome.{Result, Action}
use estrys.Activity.{Follow, Undo, Message}
use estrys.Models.{
  Url, PublicKey, PrivateKey, User, Actor, FullUser, Tweet, UserObj, UserLookup, TweetRaw, Timeline,
  TimelineStart,
}

-- Functions of the libraries: URLs, times, and the encodings of keys.
pub record Library : Type 0 where
  pub parse_url : String → Result Url
  pub url_string : Url → String
  pub hostname : Url → String
  pub parse_time : String → Result ℕ
  pub parse_int : String → Bool
  pub parse_private_key : String → Result PrivateKey
  pub marshal_private_key : PrivateKey → String
  pub marshal_public_key : PublicKey → Result String

pub record CreateUserRequest : Type 0 where
  pub username : String
  pub id : String
  pub created_at : ℕ
  pub private_key : PrivateKey

module _ (W : Type 0) where
  -- `cache.Cache[T]` (internal/cache/cache.go)
  pub record Cache (T : Type 0) : Type 0 where
    pub get : String → Action W T
    pub set : String → T → Action W (Unit {0})

  -- `twitter.Backend` (internal/twitter/client.go): the client library of the Twitter API
  pub record Backend : Type 0 where
    pub user_name_lookup : List String → Action W UserLookup
    pub user_tweet_timeline : String → TimelineStart → Action W Timeline
    pub tweet_lookup : List String → Action W TweetRaw
    pub user_lookup : List String → Action W UserLookup

  -- `twitter.TwitterClient`
  pub record TwitterClient : Type 0 where
    pub get_user_tweets : String → TimelineStart → Action W Timeline
    pub get_tweets : List String → Action W TweetRaw
    pub get_user : String → Action W UserObj
    pub get_user_by_ids : List String → Action W (List UserObj)

  -- `repository.TweetRepository` (internal/twitter/repository); a miss is none
  pub record TweetRepository : Type 0 where
    pub get_tweet : String → Action W (Option Tweet)
    pub store : Tweet → Action W (Unit {0})

  -- The statements that the generated models send to the database; an unknown row is `no_rows`.
  pub record Database : Type 0 where
    pub user_by_id : String → Action W User
    pub user_by_username : String → Action W User
    pub insert_user : User → Action W (Unit {0})
    pub add_actors : User → Actor → Action W (Unit {0})
    pub remove_actors : User → Actor → Action W (Unit {0})
    pub users_join_followers : Action W (Option (List User))
    pub actors_of : User → Action W (List Actor)
    pub actor_by_url : String → Action W Actor
    pub insert_actor : Actor → Action W (Unit {0})
    -- `uuid.NewV4`
    pub new_uuid : Action W String

  -- `repository.UserRepository`; a nil slice of users is none
  pub record UserRepository : Type 0 where
    pub get : String → Action W User
    pub get_followers : User → Action W (List Actor)
    pub follow : User → Actor → Action W (Unit {0})
    pub un_follow : User → Actor → Action W (Unit {0})
    pub create_user : CreateUserRequest → Action W User
    pub get_with_followers : Action W (Option (List User))

  -- `repository.ActorRepository`
  pub record ActorRepository : Type 0 where
    pub get : Url → Action W Actor
    pub create : Url → PublicKey → Action W Actor

  -- `crypto.KeyManager`
  pub record KeyManager : Type 0 where
    pub generate_key : Action W PrivateKey
    pub fetch_key : String → Action W PublicKey

  -- `domain.UserService`
  pub record UserService : Type 0 where
    pub get_full_user : String → Action W FullUser
    pub batch_create_users_from_ids : List String → Action W (List User)
    pub batch_create_users : List String → Action W (Unit {0})

  -- `domain.TweetService`
  pub record TweetService : Type 0 where
    pub save_tweet_and_references : String → Action W Tweet

  -- `domain.InboxService`
  pub record InboxService : Type 0 where
    pub follow : Follow → Action W (Unit {0})
    pub un_follow : Undo → Action W (Unit {0})

  -- `activitypubclient.ActivityPubClient`: an activity is sent to an actor in the name of a user
  pub record ActivityPubClient : Type 0 where
    pub post_inbox : Actor → User → Message → Action W (Unit {0})

-- `urlgenerator.URLGenerator`, with the option of an absolute URL, which all callers give
pub record UrlGenerator : Type 0 where
  pub url : String → List String → Result Url

-- The part of `activitypub.VocabService` that the worker uses
pub record VocabService : Type 0 where
  pub get_accept : User → Follow → Result Message
  pub get_reject : User → Follow → Result Message
  pub get_create_note_from_tweet : String → Tweet → Result Message
