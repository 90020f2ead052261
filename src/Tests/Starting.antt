-- ===== src/Tests/Starting.antt =====
-- The start of the server and of the worker, on concrete services.
use estrys.Common.{true, false, All, ◌≡◌, refl}
use estrys.Outcome.{
  Result, ok, err, panic, message, pure, fail, crash, lift, wrapping, match_call, ◌>>=◌,
}
use estrys.Config.{required, read_default, tweet_cache_timeout, load}
use estrys.Domain.Users.{new_user_service}
use estrys.Domain.Users.Laws.{Has}
use estrys.Startup.{
  Process, connect, ping, build_services, init_sentry, bootstrap_with, bootstrap, or_exit, serve,
  embed_worker, start_services, main_with, main, worker_main,
}
use estrys.Startup.Laws.{Served, main_ready}
use estrys.Tests.Services.{World, with_alice, parser, twitter, users, keys}
use estrys.Tests.Registering.{creating, registry}
use estrys.Tests.Tables.{settings}

abbrev process : Process World
process = record {
  new_signer = ok tt;
  sentry_init = λ dsn. pure tt;
  open_database = pure tt;
  ping_database = pure tt;
  ping_redis = pure tt;
  read_migrations = pure tt;
  init_migration = pure tt;
  migrate_up = fail (message "no change");
  is_no_change = λ e. true;
  is_server_closed = λ e. false;
  go_broker = pure tt;
  go_poller = pure tt;
  start_broker = pure tt;
  start_server = λ address. pure tt;
}

starting : Unit {0}
unfolding pure fail crash lift wrapping match_call ◌>>=◌ estrys.Outcome.Fallible.◌>>=◌ required
    read_default tweet_cache_timeout load connect ping build_services init_sentry bootstrap_with
    bootstrap or_exit serve embed_worker start_services main_with main worker_main new_user_service
starting = tt

-- The worker does not start without a configuration, and ends with an error without its database.
worker_main_tests :
    ((worker_main process (record settings { unmarshal = err (message "no file") }) with_alice).0
      ≡ panic "service logger.Logger does not exist")
    × ((worker_main
          (record process { ping_database = fail (message "down") })
          settings
          with_alice).0
        ≡ ok 1)
    × ((worker_main process settings with_alice).0 ≡ ok 0)
unfolding starting
worker_main_tests = (refl, refl, refl)

main_ready_example :
    (s : Served process (new_user_service parser users keys twitter) settings with_alice) × All
      (λ name. Has users name s.ready)
      s.conf.fields.twitter_allowed_users
unfolding starting creating
main_ready_example =
    main_ready process parser users keys twitter registry settings with_alice with_alice refl
