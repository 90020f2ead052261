-- ===== src/Startup/Laws.antt =====
-- What the server has done when it ends without an error.
use estrys.Common.{
  ℕ, Bool, Bool-cases, true, false, if◌then◌else◌, All, ◌≡◌, sym, ap, ◌∙◌, inl, inr, arith,
}
use estrys.Outcome.{Error, ok, Action, pure, crash}
use estrys.Outcome.Inversion.{
  run_cases, bind_done, lifted_done, pure_ok, match_call_ok, match_call_err, match_call_panic,
}
use estrys.Ports.{Library, UserService, UserRepository, KeyManager, TwitterClient}
use estrys.Config.{Config, Settings, load}
use estrys.Domain.Users.{new_user_service}
use estrys.Domain.Users.Laws.{Has, IsRegistry}
use estrys.Domain.Users.Registry.{batch_create_users-Has}
use estrys.Startup.{
  Process, bootstrap, bootstrap_with, or_exit, migrate, serve, start_services, main_with, main,
}

module _ {W A : Type 0} (process : Process W) where
  -- An exit with code zero comes from the rest of the start.
  or_exit_zero :
      (m : Action W A) (next : A → Action W ℕ) (w u : W)
      → or_exit process m next w ≡ (ok 0, u)
      → (a : A) × (v : W) × (m w ≡ (ok a, v)) × (next a v ≡ (ok 0, u))
  unfolding or_exit pure
  or_exit_zero m next w u h = elim (run_cases m w) [
    | inl (a, v, e) ↦ (a, v, e, sym (match_call_ok _ next _ w e) ∙ h)
    | inr (inl (why, v, e)) ↦ absurd (ground (arith, sym (match_call_err _ next _ w e) ∙ h))
    | inr (inr (why, v, e)) ↦ cc (sym (match_call_panic _ next _ w e) ∙ h)
  ]

module _ {W : Type 0} (process : Process W) where
  migrate_zero :
      (next : Action W ℕ) (w u : W)
      → migrate process next w ≡ (ok 0, u)
      → (v : W) × (next v ≡ (ok 0, u))
  unfolding migrate
  migrate_zero next w u h =
      let (_, x, _, rest1) = or_exit_zero process _ _ w u h in
      let (_, y, _, rest2) = or_exit_zero process _ _ x u rest1 in
      elim (run_cases process.migrate_up y) [
        | inl (a, v, e) ↦ (v, sym (match_call_ok _ _ _ y e) ∙ rest2)
        | inr (inl (why, v, e)) ↦ unchanged why v (sym (match_call_err _ _ _ y e) ∙ rest2)
        | inr (inr (why, v, e)) ↦ cc (sym (match_call_panic _ _ _ y e) ∙ rest2)
      ]
    where
      unchanged :
          (why : Error) (v : W)
          → (if process.is_no_change why then next else pure 1) v ≡ (ok 0, u)
          → (x : W) × (next x ≡ (ok 0, u))
      unchanged why v k = elim (Bool-cases (process.is_no_change why)) [
        | inl same ↦ (v, rw same at k)
        | inr other ↦ absurd (omega (arith, (pure_ok 1 0 v (rw other at k)).0))
      ]

  migrated :
      (migrates : Bool) (next : Action W ℕ) (w u : W)
      → (if migrates then migrate process next else next) w ≡ (ok 0, u)
      → (v : W) × (next v ≡ (ok 0, u))
  migrated true next w u h = migrate_zero next w u h
  migrated false next w u h = (w, h)

  module _ (users : UserService W) where
    -- The steps of a server that ended without an error: the configuration was loaded, then the configured
    -- accounts were created, and only after that the poller was started and requests were served.
    pub record Served (settings : Settings) (u : W) : Type 0 where
      pub conf : Config
      pub is_conf : load settings ≡ ok conf
      pub before : W
      pub ready : W
      pub is_created :
          users.batch_create_users conf.fields.twitter_allowed_users before ≡ (ok tt, ready)
      pub polling : W
      pub is_polling : process.go_poller ready ≡ (ok tt, polling)
      pub is_served : serve process conf.fields.address polling ≡ (ok 0, u)

    start_services_zero :
        (settings : Settings) (conf : Config) (w u : W)
        → load settings ≡ ok conf
        → start_services process users conf w ≡ (ok 0, u)
        → Served settings u
    unfolding start_services
    start_services_zero settings conf w u is_conf h =
        let (_, before, _, rest1) = bind_done _ _ w h in
        let (_, ready, is_created, rest2) = or_exit_zero process _ _ before u rest1 in
        let (_, polling, is_polling, rest3) = bind_done _ _ ready rest2 in
        record {
          conf = conf;
          is_conf = is_conf;
          before = before;
          ready = ready;
          is_created = is_created;
          polling = polling;
          is_polling = is_polling;
          is_served = rest3;
        }

    main_with_zero :
        (settings : Settings) (conf : Config) (w u : W)
        → load settings ≡ ok conf
        → main_with process users conf w ≡ (ok 0, u)
        → Served settings u
    unfolding main_with
    main_with_zero settings conf w u is_conf h =
        let (v, rest) =
          migrated conf.fields.run_migrations (start_services process users conf) w u h in
        start_services_zero settings conf v u is_conf rest

    bootstrap_loads :
        (settings : Settings) (conf : Config) (w u : W)
        → bootstrap process settings w ≡ (ok conf, u)
        → load settings ≡ ok conf
    unfolding bootstrap bootstrap_with
    bootstrap_loads settings conf w u h =
        let (loaded, is_loaded, rest0) = lifted_done _ _ _ w h in
        let (_, a, _, rest1) = bind_done _ _ w rest0 in
        let (_, b, _, rest2) = bind_done _ _ a rest1 in
        let (_, c, _, rest3) = bind_done _ _ b rest2 in
        let (_, d, _, rest4) = bind_done _ _ c rest3 in is_loaded ∙ ap ok (pure_ok _ _ d rest4).0

    main_zero :
        (settings : Settings) (w u : W)
        → main process users settings w ≡ (ok 0, u)
        → Served settings u
    unfolding main crash
    main_zero settings w u h = elim (run_cases (bootstrap process settings) w) [
      | inl (conf, v, e) ↦
          main_with_zero settings conf v u (bootstrap_loads settings conf w v e)
            (sym (match_call_ok _ _ _ w e) ∙ h)
      | inr (inl (why, v, e)) ↦ cc (sym (match_call_err _ _ _ w e) ∙ h)
      | inr (inr (why, v, e)) ↦ cc (sym (match_call_panic _ _ _ w e) ∙ h)
    ]

  module _ (library : Library) (repo : UserRepository W) (keys : KeyManager W)
      (twitter : TwitterClient W) (registry : IsRegistry repo keys twitter) where
    -- Where the repository keeps its users, no other service removes one, and Twitter answers for the name
    -- that was asked, a server that ended without an error has loaded its configuration, and had a user
    -- for every configured account when it started the poller, after which it served requests.
    pub main_ready :
        (settings : Settings) (w u : W)
        → main process (new_user_service library repo keys twitter) settings w ≡ (ok 0, u)
        → (s : Served (new_user_service library repo keys twitter) settings u) × All
            (λ name. Has repo name s.ready)
            s.conf.fields.twitter_allowed_users
    unfolding new_user_service
    main_ready settings w u h =
        let s = main_zero (new_user_service library repo keys twitter) settings w u h in
        (
          s,
          batch_create_users-Has library repo keys twitter registry
              s.conf.fields.twitter_allowed_users s.before s.ready s.is_created,
        )
