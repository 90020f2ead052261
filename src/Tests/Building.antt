-- ===== src/Tests/Building.antt =====
-- The container, with services that are the names of what they were made of.
use Prim.Native.String
use estrys.Common.{String, [], ◌∷◌, ◌≡◌, refl}
use estrys.Outcome.{
  err, panic, message, wrap, ok, Action, pure, lift, wrapping, match_call, fail, ◌>>=◌,
}
use estrys.Config.{required, read_default, tweet_cache_timeout, load}
use estrys.Dic.{Services, service_of, get_service, register, reset_container}
use estrys.Dic.Container.{
  Constructors, register_stores, register_clients, register_repositories, register_user_service,
  register_inbox_service, register_tweet_service, register_poller, register_all, build_container,
}
use estrys.Dic.Laws.{AllRegistered}
use estrys.Dic.Built.{built_services, build_container_ready}
use estrys.Tests.Tables.{settings, conf}

abbrev constructors : Constructors String
constructors = record {
  config = λ conf. "config";
  create_logger = λ conf. "log";
  get_router = λ log. "router";
  new_url_generator = λ conf router. String.◌++◌ "urls of " router;
  new_activity_pub_vocab_service = λ urls. "vocab";
  new_postgres = λ conf log. "postgres";
  new_redis_client = λ conf. "redis";
  create_user_cache = λ conf redis. "user cache";
  create_tweet_cache = λ conf redis. "tweet cache";
  new_background_worker_client = λ conf. "queue";
  twitter_backend = λ conf log. "backend";
  new_client = λ log cache backend. String.◌++◌ "twitter with " cache;
  new_redis_tweet_repository = λ cache. String.◌++◌ "tweets in " cache;
  new_signer = ok tt;
  new_activity_pub_client = λ log urls. "sender";
  new_user_repository = λ database. String.◌++◌ "users in " database;
  new_actor_repository = λ database. "actors";
  new_voter_authorization_checker = λ conf. "checker";
  new_key_manager = λ log. "keys";
  new_user_service = λ log keys users twitter. String.◌++◌ "service of " users;
  new_inbox_service = λ log database actors users keys sender vocab worker checker conf. sender;
  new_tweet_service = λ log users twitter tweets. tweets;
  new_poller = λ log twitter users worker. twitter;
}

abbrev failing : Constructors String
failing = record constructors { new_signer = err (message "no algorithm") }

building : Unit {0}
unfolding pure lift fail wrapping match_call ◌>>=◌ estrys.Outcome.Fallible.◌>>=◌ required
    read_default tweet_cache_timeout load service_of get_service register reset_container
    register_stores register_clients register_repositories register_user_service
    register_inbox_service register_tweet_service register_poller register_all build_container
building = tt

build_container_ready_example :
    (built : Services String) × (build_container constructors settings [] ≡ (ok tt, built))
    × AllRegistered built_services built
unfolding building
build_container_ready_example = build_container_ready constructors settings conf [] refl refl

-- The poller is made of the client of Twitter; a service that stands keeps its place; the block stops
-- where the signer fails; and after a reset a service is asked for in vain.
build_container_tests :
    (service_of "poller.TwitterPoller" (build_container constructors settings []).1
      ≡ service_of "twitter.TwitterClient" (build_container constructors settings []).1)
    × (service_of "domain.UserService"
          (build_container constructors settings (("database.Database", "mine") ∷ [])).1
        ≡ service_of "domain.UserService" (("domain.UserService", "service of users in mine") ∷ []))
    × ((build_container failing settings []).0
        ≡ err (
            wrap "unable to create the activitypub client"
              (wrap "unable to create an http request signer" (message "no algorithm"))))
    × (get_service "crypto.KeyManager"
          (reset_container (build_container constructors settings []).1).1
        ≡ (panic "service crypto.KeyManager does not exist", []))
unfolding building
build_container_tests = (refl, refl, refl, refl)
