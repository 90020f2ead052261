-- ===== src/System/Stored.antt =====
-- The system over the repositories of its database (internal/repository): who follows, in terms of the
-- statements on the tables.
use estrys.Common.{String, Option, none, some, ◌≡◌}
use estrys.Outcome.{ok}
use estrys.Outcome.Keeps.{Keeps, Keeps-pure, Keeps-lift, Keeps-wrapping, Keeps-bind, keeps_rules}
use estrys.Models.{User, Actor}
use estrys.Ports.{Database}
use estrys.Repository.Users.{get_by_id, or_by_username, new_user_repository}
use estrys.Repository.Actors.{new_actor_repository}
use estrys.Repository.Actors.Named.{new_actor_repository-IsActorStore}
use estrys.Poller.{State}
use estrys.System.{Program, Reach}
use estrys.System.Guarded.{IsGuarded, IsGuardedServices}
use estrys.System.Guarded.Polls.{InWorld}
use estrys.System.Granted.{Entitled, PrintsUrls, Reach-Keeps}

-- The program over the repositories of a database
abbrev pub stored : {W : Type 0} → Program W → Database W → Program W
stored p db = record p {
  users = new_user_repository p.library db;
  actors = new_actor_repository p.library db;
}

-- Each statement keeps `P`, save that a follower is inserted for an actor that `Entitled` allows.
pub record IsGuardedTables {W : Type 0} (db : Database W) (P : W → Type 0)
    (Entitled : Actor → Type 0) : Type 0 where
  pub user_by_id : (id : String) → Keeps P (db.user_by_id id)
  pub user_by_username : (name : String) → Keeps P (db.user_by_username name)
  pub insert_user : (row : User) → Keeps P (db.insert_user row)
  pub add_actors :
      (user : User) (actor : Actor) → Entitled actor → Keeps P (db.add_actors user actor)
  pub remove_actors : (user : User) (actor : Actor) → Keeps P (db.remove_actors user actor)
  pub users_join_followers : Keeps P db.users_join_followers
  pub actors_of : (user : User) → Keeps P (db.actors_of user)
  pub actor_by_url : (url : String) → Keeps P (db.actor_by_url url)
  pub insert_actor : (row : Actor) → Keeps P (db.insert_actor row)
  pub new_uuid : Keeps P db.new_uuid

module _ {W : Type 0} (p : Program W) (db : Database W) {P : W → Type 0} {Q : Actor → Type 0}
    (tables : IsGuardedTables db P Q) where
  get_by_id-Keeps : (id : String) → Keeps P (get_by_id p.library db id)
  unfolding get_by_id
  get_by_id-Keeps id = search (keeps_rules, tables.user_by_id)

  or_by_username-Keeps :
      (name : String) (found : Option User) → Keeps P (or_by_username p.library db name found)
  unfolding or_by_username
  or_by_username-Keeps name (some user) = search (keeps_rules)
  or_by_username-Keeps name none = search (keeps_rules, tables.user_by_username)

  -- What the statements keep, the calls of the repositories keep.
  stored-IsGuarded : IsGuardedServices (stored p db) P → IsGuarded (stored p db) P Q
  unfolding new_user_repository new_actor_repository estrys.Repository.Users.get
      estrys.Repository.Users.create_user estrys.Repository.Actors.get
      estrys.Repository.Actors.create
  stored-IsGuarded services = record {
    get = λ name. search (keeps_rules, get_by_id-Keeps, or_by_username-Keeps);
    get_followers = tables.actors_of;
    follow = λ user actor entitled. Keeps-wrapping _ _ (tables.add_actors user actor entitled);
    un_follow = λ user actor. Keeps-wrapping _ _ (tables.remove_actors user actor);
    create_user = λ request. search (keeps_rules, tables.insert_user);
    get_with_followers = tables.users_join_followers;
    get_actor = λ url. Keeps-wrapping _ _ (tables.actor_by_url _);
    create_actor = λ url key. Keeps-bind _ _ (Keeps-wrapping _ _ (Keeps-lift _)) λ _.
        Keeps-bind _ _ (Keeps-wrapping _ _ tables.new_uuid)
          λ _. Keeps-bind _ _ (Keeps-wrapping _ _ (tables.insert_actor _)) λ _. Keeps-pure _;
    services = services;
  }

module _ {W : Type 0} (p : Program W) (db : Database W) {P : W → Type 0} where
  -- Where the table of actors finds a row by its own URL, and a URL that was printed is serialized as it
  -- is and parsed to one that prints the same, the following holds in every state that the program over
  -- the repositories of its database reaches, by whatever requests, tasks and ticks in whatever order.
  -- The world has each property that it had at first and that all statements and services keep, where
  -- inserting a follower need keep it only for an actor whose name ends with a configured entry.
  pub Reach-Keeps_stored :
      {s t : State W}
      → ((url : String) (row : Actor) (w u : W)
          → db.actor_by_url url w ≡ (ok row, u)
          → row.url ≡ url)
      → PrintsUrls p.library p.vocab
      → IsGuardedTables db P (Entitled p)
      → IsGuardedServices (stored p db) P
      → Reach (stored p db) s t
      → InWorld P s
      → InWorld P t
  Reach-Keeps_stored by_url urls tables services =
      Reach-Keeps (stored p db)
        record { store = new_actor_repository-IsActorStore p.library db by_url; urls = urls }
        (stored-IsGuarded p db tables services)
