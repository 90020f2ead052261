-- ===== src/System/Followers.antt =====
-- The table of followers of the whole system (internal/repository/user.go).
use estrys.Common.{String, ◌≡◌, ◌⊎◌, ◌∙◌, inl, inr}
use estrys.Outcome.{Action, ok}
use estrys.Outcome.Keeps.{Keeps}
use estrys.Models.{User, Actor}
use estrys.Ports.{Database}
use estrys.Poller.{State}
use estrys.System.{Program, Reach}
use estrys.System.Guarded.{IsGuardedServices}
use estrys.System.Granted.{Entitled, PrintsUrls}
use estrys.System.Stored.{stored, IsGuardedTables, Reach-Keeps_stored}

-- What the table of followers gives, as `Follows` reads it, by the names of the users: `AddActors` adds
-- the row that it is given, if any, and no other statement adds one.
module _ {W : Type 0} (Follows : String → Actor → W → Type 0) where
  -- Who follows afterwards, did before.
  pub record AddsNone {A : Type 0} (m : Action W A) : Type 0 where
    pub at :
        (name : String) (actor : Actor) (w : W) → Follows name actor (m w).1 → Follows name actor w

  pub record IsFollowerTable (db : Database W) : Type 0 where
    pub add_actors :
        (user : User) (added : Actor) (name : String) (actor : Actor) (w : W)
        → Follows name actor (db.add_actors user added w).1
        → Follows name actor w ⊎ ((name ≡ user.username) × (actor.url ≡ added.url))
    pub user_by_id : (id : String) → AddsNone (db.user_by_id id)
    pub user_by_username : (name : String) → AddsNone (db.user_by_username name)
    pub insert_user : (row : User) → AddsNone (db.insert_user row)
    pub remove_actors : (user : User) (actor : Actor) → AddsNone (db.remove_actors user actor)
    pub users_join_followers : AddsNone db.users_join_followers
    pub actors_of : (user : User) → AddsNone (db.actors_of user)
    pub actor_by_url : (url : String) → AddsNone (db.actor_by_url url)
    pub insert_actor : (row : Actor) → AddsNone (db.insert_actor row)
    pub new_uuid : AddsNone db.new_uuid

  -- The name of each follower's account ends with one of the configured entries.
  abbrev pub OnlyEntitled : Program W → W → Type 0
  OnlyEntitled p w = (name : String) (actor : Actor) → Follows name actor w → Entitled p actor

  module _ (p : Program W) (db : Database W) where
    AddsNone-Keeps : {A : Type 0} {m : Action W A} → AddsNone m → Keeps (OnlyEntitled p) m
    AddsNone-Keeps none = record { at = λ w h name actor f. h name actor (none.at name actor w f) }

    tables_guarded : IsFollowerTable db → IsGuardedTables db (OnlyEntitled p) (Entitled p)
    tables_guarded table = record {
      user_by_id = λ id. AddsNone-Keeps (table.user_by_id id);
      user_by_username = λ name. AddsNone-Keeps (table.user_by_username name);
      insert_user = λ row. AddsNone-Keeps (table.insert_user row);
      add_actors = λ user added entitled. record {
        at = λ w h name actor f. elim (table.add_actors user added name actor w f) [
          | inl before ↦ h name actor before
          | inr (_, same) ↦ let (url, named, may) = entitled in (url, same ∙ named, may)
        ];
      };
      remove_actors = λ user actor. AddsNone-Keeps (table.remove_actors user actor);
      users_join_followers = AddsNone-Keeps table.users_join_followers;
      actors_of = λ user. AddsNone-Keeps (table.actors_of user);
      actor_by_url = λ url. AddsNone-Keeps (table.actor_by_url url);
      insert_actor = λ row. AddsNone-Keeps (table.insert_actor row);
      new_uuid = AddsNone-Keeps table.new_uuid;
    }

    -- Where only `AddActors` adds followers, the table of actors finds a row by its own URL, and a URL
    -- that was printed is serialized as it is and parsed to one that prints the same, this holds of the
    -- program over the repositories of its database: from a state in which the account of each follower
    -- has a name, @name@host, that ends with one of the configured entries, it reaches only such states,
    -- by whatever requests, tasks and ticks in whatever order, if the services beside the repositories
    -- lead from such states to such only.
    pub follower_entitled :
        {s t : State W}
        → IsFollowerTable db
        → ((url : String) (row : Actor) (w u : W)
            → db.actor_by_url url w ≡ (ok row, u)
            → row.url ≡ url)
        → PrintsUrls p.library p.vocab
        → IsGuardedServices (stored p db) (OnlyEntitled p)
        → Reach (stored p db) s t
        → OnlyEntitled p s.world
        → OnlyEntitled p t.world
    follower_entitled table by_url urls services =
        Reach-Keeps_stored p db by_url urls (tables_guarded table) services
