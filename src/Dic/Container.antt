-- ===== src/Dic/Container.antt =====
-- `BuildContainer` of internal/dic/container/container.go. The constructors of the components, of the
-- router and of the clients are parameters: what the components do is in the modules of their own,
-- and here only who needs whom. The one that can fail is the client of ActivityPub, by its signer.
use estrys.Outcome.{Result, Action, pure, lift, wrapping, ◌>>=◌, ◌>>◌}
use estrys.Config.{Config, Settings, load}
use estrys.Dic.{Services, get_service, register}

pub record Constructors (Any : Type 0) : Type 0 where
  pub config : Config → Any
  pub create_logger : Config → Any
  -- The router, whose handlers hold the logger: `HTTPErrorHandler` asks for it as it is made.
  pub get_router : Any → Any
  pub new_url_generator : Config → Any → Any
  pub new_activity_pub_vocab_service : Any → Any
  pub new_postgres : Config → Any → Any
  pub new_redis_client : Config → Any
  pub create_user_cache : Config → Any → Any
  pub create_tweet_cache : Config → Any → Any
  pub new_background_worker_client : Config → Any
  pub twitter_backend : Config → Any → Any
  pub new_client : Any → Any → Any → Any
  pub new_redis_tweet_repository : Any → Any
  pub new_signer : Result (Unit {0})
  pub new_activity_pub_client : Any → Any → Any
  pub new_user_repository : Any → Any
  pub new_actor_repository : Any → Any
  pub new_voter_authorization_checker : Config → Any
  pub new_key_manager : Any → Any
  pub new_user_service : Any → Any → Any → Any → Any
  pub new_inbox_service : Any → Any → Any → Any → Any → Any → Any → Any → Any → Config → Any
  pub new_tweet_service : Any → Any → Any → Any → Any
  pub new_poller : Any → Any → Any → Any → Any

module _ {Any : Type 0} (constructors : Constructors Any) (conf : Config) where
  -- The configuration, the logger, the routes and the stores
  unfoldable pub register_stores : Action (Services Any) (Unit {0})
  register_stores =
      let redis_client = constructors.new_redis_client conf in
      do
        register "config.Config" (constructors.config conf)
        register "logger.Logger" (constructors.create_logger conf)
        log_of_handlers ← get_service "logger.Logger"
        register "*mux.Router" (constructors.get_router log_of_handlers)
        router ← get_service "*mux.Router"
        register "urlgenerator.URLGenerator" (constructors.new_url_generator conf router)
        urls ← get_service "urlgenerator.URLGenerator"
        register "activitypub.VocabService" (constructors.new_activity_pub_vocab_service urls)
        log ← get_service "logger.Logger"
        register "database.Database" (constructors.new_postgres conf log)
        register "cache.RedisClient" redis_client
        register "cache.Cache[github.com/g8rswimmer/go-twitter/v2.UserObj]"
            (constructors.create_user_cache conf redis_client)
        register "cache.Cache[github.com/estrys/estrys/internal/twitter/models.Tweet]"
            (constructors.create_tweet_cache conf redis_client)
        pure tt

  -- The clients of the worker, of Twitter and of the other servers
  unfoldable pub register_clients : Action (Services Any) (Unit {0})
  register_clients = do
    register "client.BackgroundWorkerClient" (constructors.new_background_worker_client conf)
    log ← get_service "logger.Logger"
    register "twitter.Backend" (constructors.twitter_backend conf log)
    log_of_client ← get_service "logger.Logger"
    cache ← get_service "cache.Cache[github.com/g8rswimmer/go-twitter/v2.UserObj]"
    backend ← get_service "twitter.Backend"
    register "twitter.TwitterClient" (constructors.new_client log_of_client cache backend)
    tweets ← get_service "cache.Cache[github.com/estrys/estrys/internal/twitter/models.Tweet]"
    register "repository.TweetRepository" (constructors.new_redis_tweet_repository tweets)
    log_of_sender ← get_service "logger.Logger"
    urls ← get_service "urlgenerator.URLGenerator"
    wrapping "unable to create the activitypub client"
        (wrapping "unable to create an http request signer" (lift constructors.new_signer))
    register "activitypubclient.ActivityPubClient"
        (constructors.new_activity_pub_client log_of_sender urls)
    pure tt

  -- The repositories, the authorization and the keys
  unfoldable pub register_repositories : Action (Services Any) (Unit {0})
  register_repositories = do
    database ← get_service "database.Database"
    register "repository.UserRepository" (constructors.new_user_repository database)
    database_of_actors ← get_service "database.Database"
    register "repository.ActorRepository" (constructors.new_actor_repository database_of_actors)
    register "authorization.AuthorizationChecker"
        (constructors.new_voter_authorization_checker conf)
    log ← get_service "logger.Logger"
    register "crypto.KeyManager" (constructors.new_key_manager log)
    pure tt

  unfoldable pub register_user_service : Action (Services Any) (Unit {0})
  register_user_service = do
    log ← get_service "logger.Logger"
    keys ← get_service "crypto.KeyManager"
    users ← get_service "repository.UserRepository"
    twitter ← get_service "twitter.TwitterClient"
    register "domain.UserService" (constructors.new_user_service log keys users twitter)
    pure tt

  unfoldable pub register_inbox_service : Action (Services Any) (Unit {0})
  register_inbox_service = do
    log ← get_service "logger.Logger"
    database ← get_service "database.Database"
    actors ← get_service "repository.ActorRepository"
    users ← get_service "repository.UserRepository"
    keys ← get_service "crypto.KeyManager"
    sender ← get_service "activitypubclient.ActivityPubClient"
    vocab ← get_service "activitypub.VocabService"
    worker ← get_service "client.BackgroundWorkerClient"
    checker ← get_service "authorization.AuthorizationChecker"
    register "domain.InboxService" (
        constructors.new_inbox_service log database actors users keys sender vocab worker checker
          conf)
    pure tt

  unfoldable pub register_tweet_service : Action (Services Any) (Unit {0})
  register_tweet_service = do
    log ← get_service "logger.Logger"
    users ← get_service "domain.UserService"
    twitter ← get_service "twitter.TwitterClient"
    tweets ← get_service "repository.TweetRepository"
    register "domain.TweetService" (constructors.new_tweet_service log users twitter tweets)
    pure tt

  unfoldable pub register_poller : Action (Services Any) (Unit {0})
  register_poller = do
    log ← get_service "logger.Logger"
    twitter ← get_service "twitter.TwitterClient"
    users ← get_service "repository.UserRepository"
    worker ← get_service "client.BackgroundWorkerClient"
    register "poller.TwitterPoller" (constructors.new_poller log twitter users worker)
    pure tt

  -- What follows the load of the configuration, in the order of the code
  unfoldable pub register_all : Action (Services Any) (Unit {0})
  register_all = do
    register_stores
    register_clients
    register_repositories
    register_user_service
    register_inbox_service
    register_tweet_service
    register_poller

module _ {Any : Type 0} (constructors : Constructors Any) where
  unfoldable pub build_container : Settings → Action (Services Any) (Unit {0})
  build_container settings = do
    conf ← wrapping "unable to load config" (lift (load settings))
    register_all constructors conf
