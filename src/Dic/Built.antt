-- ===== src/Dic/Built.antt =====
-- `BuildContainer` asks only for services that it has registered.
use estrys.Common.{String, List, [], ◌∷◌, ◌≡◌, refl, ◌∙◌}
use estrys.Outcome.{ok, wrapping, lift, ◌>>◌}
use estrys.Outcome.Inversion.{bind_run_ok}
use estrys.Config.{Config, Settings, load}
use estrys.Dic.{Services}
use estrys.Dic.Container.{
  Constructors, register_stores, register_clients, register_repositories, register_user_service,
  register_inbox_service, register_tweet_service, register_poller, register_all, build_container,
}
use estrys.Dic.Laws.{
  among, AllRegistered, Builds, Builds-get_service, Builds-register, Builds-bind, Builds-pure,
  Builds-lift,
}

-- The types of the services, the last registered first
abbrev pub stores : List String
stores =
    "cache.Cache[github.com/estrys/estrys/internal/twitter/models.Tweet]"
    ∷ "cache.Cache[github.com/g8rswimmer/go-twitter/v2.UserObj]" ∷ "cache.RedisClient"
    ∷ "database.Database" ∷ "activitypub.VocabService" ∷ "urlgenerator.URLGenerator" ∷ "*mux.Router"
    ∷ "logger.Logger" ∷ "config.Config" ∷ []

abbrev pub clients : List String
clients =
    "activitypubclient.ActivityPubClient" ∷ "repository.TweetRepository" ∷ "twitter.TwitterClient"
    ∷ "twitter.Backend" ∷ "client.BackgroundWorkerClient" ∷ stores

abbrev pub repositories : List String
repositories =
    "crypto.KeyManager" ∷ "authorization.AuthorizationChecker" ∷ "repository.ActorRepository"
    ∷ "repository.UserRepository" ∷ clients

abbrev pub built_services : List String
built_services =
    "poller.TwitterPoller" ∷ "domain.TweetService" ∷ "domain.InboxService" ∷ "domain.UserService"
    ∷ repositories

module _ {Any : Type 0} (constructors : Constructors Any) (conf : Config) where
  register_stores-Builds : Builds [] stores (register_stores constructors conf)
  unfolding register_stores among
  register_stores-Builds = Builds-register _ (
      Builds-register _ (
        Builds-get_service _ refl λ log. Builds-register _ (
          Builds-get_service _ refl λ router. Builds-register _ (
            Builds-get_service _ refl λ urls. Builds-register _ (
              Builds-get_service _ refl λ log.
                Builds-register _
                  (Builds-register _ (Builds-register _ (Builds-register _ Builds-pure))))))))

  register_clients-Builds :
      constructors.new_signer ≡ ok tt → Builds stores clients (register_clients constructors conf)
  unfolding register_clients among
  register_clients-Builds signs = Builds-register _ (
      Builds-get_service _ refl λ log. Builds-register _ (
        Builds-get_service _ refl λ log. Builds-get_service _ refl λ cache.
          Builds-get_service _ refl λ backend. Builds-register _ (
            Builds-get_service _ refl λ tweets. Builds-register _ (
              Builds-get_service _ refl λ log.
                Builds-get_service _ refl
                  λ urls. Builds-bind (Builds-lift _ _ signs) (Builds-register _ Builds-pure)))))

  register_repositories-Builds :
      Builds clients repositories (register_repositories constructors conf)
  unfolding register_repositories among
  register_repositories-Builds = Builds-get_service _ refl λ database. Builds-register _ (
      Builds-get_service _ refl λ database.
        Builds-register _
          (Builds-register _ (Builds-get_service _ refl λ log. Builds-register _ Builds-pure)))

  register_user_service-Builds :
      Builds repositories
        ("domain.UserService" ∷ repositories)
        (register_user_service constructors conf)
  unfolding register_user_service among
  register_user_service-Builds = Builds-get_service _ refl λ log. Builds-get_service _ refl λ keys.
      Builds-get_service _ refl
        λ users. Builds-get_service _ refl λ twitter. Builds-register _ Builds-pure

  register_inbox_service-Builds :
      Builds
        ("domain.UserService" ∷ repositories)
        ("domain.InboxService" ∷ "domain.UserService" ∷ repositories)
        (register_inbox_service constructors conf)
  unfolding register_inbox_service among
  register_inbox_service-Builds = Builds-get_service _ refl λ log.
      Builds-get_service _ refl λ database. Builds-get_service _ refl λ actors.
        Builds-get_service _ refl λ users. Builds-get_service _ refl λ keys.
          Builds-get_service _ refl λ sender. Builds-get_service _ refl λ vocab.
            Builds-get_service _ refl
              λ worker. Builds-get_service _ refl λ checker. Builds-register _ Builds-pure

  register_last-Builds :
      Builds
        ("domain.InboxService" ∷ "domain.UserService" ∷ repositories)
        built_services
        (do register_tweet_service constructors conf; register_poller constructors conf)
  unfolding register_tweet_service register_poller among
  register_last-Builds =
      Builds-bind
        (Builds-get_service _ refl λ log. Builds-get_service _ refl λ users.
          Builds-get_service _ refl
            λ twitter. Builds-get_service _ refl λ tweets. Builds-register _ Builds-pure)
        (Builds-get_service _ refl λ log. Builds-get_service _ refl λ twitter.
          Builds-get_service _ refl
            λ users. Builds-get_service _ refl λ worker. Builds-register _ Builds-pure)

  register_all-Builds :
      constructors.new_signer ≡ ok tt → Builds [] built_services (register_all constructors conf)
  unfolding register_all
  register_all-Builds signs = Builds-bind register_stores-Builds (
      Builds-bind (register_clients-Builds signs) (
        Builds-bind register_repositories-Builds (
          Builds-bind register_user_service-Builds
            (Builds-bind register_inbox_service-Builds register_last-Builds))))

module _ {Any : Type 0} (constructors : Constructors Any) where
  -- Where the configuration loads and the signer of the requests is made, the container is built
  -- whatever was registered before: no constructor asks for a service that is not there yet, and in the
  -- end each of the services is registered.
  pub build_container_ready :
      (settings : Settings) (conf : Config) (services : Services Any)
      → load settings ≡ ok conf
      → constructors.new_signer ≡ ok tt
      → (built : Services Any) × (build_container constructors settings services ≡ (ok tt, built))
        × AllRegistered built_services built
  unfolding build_container wrapping lift
  build_container_ready settings conf services loads signs =
      let (built, done, all) = (register_all-Builds constructors conf signs).run services tt in
      (built, bind_run_ok _ _ services (rw loads refl) ∙ done, all)
