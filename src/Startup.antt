-- ===== src/Startup.antt =====
-- cmd/bootstrap.go, cmd/estrys/main.go and cmd/worker/main.go: the start of the two processes, with
-- `Connect` of internal/database/db.go, `Ping` of internal/cache/redis_client.go, and the errors of
-- `BuildContainer`. What the processes start in the background and serve until they are stopped are
-- calls of the services; logging and signals are left out. A process ends with an exit code or a panic.
pub mod Laws
use estrys.Common.{ℕ, String, str_eq, Bool, if◌then◌else◌, List}
use estrys.Outcome.{
  Error, Result, ok, err, panic, Action, pure, fail, crash, lift, wrapping, match_call, ◌>>=◌, ◌>>◌,
}
use estrys.Ports.{UserService}
use estrys.Config.{Config, Settings, load}

-- The calls that a start makes: the signer of `httpsig`, `sentry.Init`, the database, Redis, the three
-- steps of the migrations, the goroutines, the broker and the server.
pub record Process (W : Type 0) : Type 0 where
  pub new_signer : Result (Unit {0})
  pub sentry_init : String → Action W (Unit {0})
  pub open_database : Action W (Unit {0})
  pub ping_database : Action W (Unit {0})
  pub ping_redis : Action W (Unit {0})
  pub read_migrations : Action W (Unit {0})
  pub init_migration : Action W (Unit {0})
  pub migrate_up : Action W (Unit {0})
  -- `errors.Is(err, migrate.ErrNoChange)` and `errors.Is(err, http.ErrServerClosed)`
  pub is_no_change : Error → Bool
  pub is_server_closed : Error → Bool
  pub go_broker : Action W (Unit {0})
  pub go_poller : Action W (Unit {0})
  pub start_broker : Action W (Unit {0})
  pub start_server : String → Action W (Unit {0})

module _ {W : Type 0} (process : Process W) where
  unfoldable pub connect : Action W (Unit {0})
  connect = do
    wrapping "unable to open a connection to the database" process.open_database
    wrapping "unable to ping database" process.ping_database

  unfoldable pub ping : Action W (Unit {0})
  ping = wrapping "unable to reach redis" process.ping_redis

  -- `BuildContainer` after the configuration was loaded: of the constructors, only the one of the
  -- client that signs can fail.
  unfoldable pub build_services : Action W (Unit {0})
  build_services =
      wrapping "unable to create the activitypub client"
        (wrapping "unable to create an http request signer" (lift process.new_signer))

  unfoldable pub init_sentry : String → Action W (Unit {0})
  init_sentry dsn =
      if str_eq dsn "" then pure tt else wrapping "unable to init sentry" (process.sentry_init dsn)

  -- `Bootstrap` with a configuration
  unfoldable pub bootstrap_with : Config → Action W Config
  bootstrap_with conf = do
    build_services
    init_sentry conf.fields.sentry_dsn
    wrapping "unable to connect to postgres" connect
    wrapping "unable to connect to redis" ping
    pure conf

  unfoldable pub bootstrap : Settings → Action W Config
  bootstrap settings = do
    conf ← wrapping "unable to load config" (lift (load settings))
    bootstrap_with conf

  -- `os.Exit(1)` after an error
  unfoldable pub or_exit : {A : Type 0} → Action W A → (A → Action W ℕ) → Action W ℕ
  or_exit m next = match_call m next (λ e. pure 1)

  unfoldable pub migrate : Action W ℕ → Action W ℕ
  migrate next = or_exit process.read_migrations λ _. or_exit process.init_migration λ _.
      match_call process.migrate_up (λ _. next) λ e. if process.is_no_change e then next else pure 1

  unfoldable pub serve : String → Action W ℕ
  serve address =
      match_call (process.start_server address) (λ _. pure 0)
        λ e. if process.is_server_closed e then pure 0 else pure 1

  unfoldable pub embed_worker : Bool → Action W (Unit {0})
  embed_worker disabled = if disabled then pure tt else process.go_broker

  -- `main` of the server after the migrations
  unfoldable pub start_services : UserService W → Config → Action W ℕ
  start_services users conf = do
    embed_worker conf.fields.disable_embed_worker
    or_exit (users.batch_create_users conf.fields.twitter_allowed_users)
        λ _. process.go_poller >> serve conf.fields.address

  unfoldable pub main_with : UserService W → Config → Action W ℕ
  main_with users conf =
      let rest = start_services users conf in
      if conf.fields.run_migrations then migrate rest else rest

  -- `main` of the server, with the service of users that the container holds
  unfoldable pub main : UserService W → Settings → Action W ℕ
  main users settings =
      match_call (bootstrap settings) (main_with users) (λ e. crash "start of the application")

  -- `main` of the worker: the logger is asked for before the error is read, and it is not there when
  -- the configuration was not loaded.
  unfoldable pub worker_main : Settings → Action W ℕ
  worker_main settings =
      match_call (lift (load settings))
        (λ conf. or_exit (bootstrap_with conf) λ _. or_exit process.start_broker λ _. pure 0)
        (λ e. crash "service logger.Logger does not exist")
