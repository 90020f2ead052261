-- ===== src/Repository/Actors/Named.antt =====
-- The repository of actors (internal/repository/actor.go) names its rows by their URLs.
use estrys.Common.{String, ◌≡◌, sym, ap}
use estrys.Outcome.{ok}
use estrys.Outcome.Inversion.{bind_done, wrapping_ok, pure_ok}
use estrys.Models.{Url, PublicKey, Actor}
use estrys.Ports.{Library, Database}
use estrys.Repository.Actors.{new_actor, create, get, new_actor_repository}
use estrys.Domain.Inbox.Named.{IsActorStore}

module _ {W : Type 0} (library : Library) (db : Database W) where
  -- The row that is given for a new actor is under the URL that was asked for.
  create-url :
      (url : Url) (key : PublicKey) (actor : Actor) (w u : W)
      → create library db url key w ≡ (ok actor, u)
      → actor.url ≡ library.url_string url
  unfolding create
  create-url url key actor w u h =
      let (text, w₁, _, marshalled) = bind_done _ _ w h in
      let (id, w₂, _, numbered) = bind_done _ _ w₁ marshalled in
      let (_, w₃, _, inserted) = bind_done _ _ w₂ numbered in
      sym (ap (λ a. a.url) (pure_ok (new_actor library id url text) actor w₃ inserted).0)

  -- Where the table of actors finds a row by its own URL, the repository of actors gives each actor,
  -- found or new, under the URL that was asked for.
  pub new_actor_repository-IsActorStore :
      ((url : String) (row : Actor) (w u : W) → db.actor_by_url url w ≡ (ok row, u) → row.url ≡ url)
      → IsActorStore library (new_actor_repository library db)
  unfolding new_actor_repository get
  new_actor_repository-IsActorStore by_url = record {
    got = λ url actor w u h. by_url (library.url_string url) actor w u (wrapping_ok _ _ w h);
    created = create-url;
  }
