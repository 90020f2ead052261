-- ===== src/Domain/Inbox/Named.antt =====
-- The actor that a request names is stored under its URL: `createActorIfNoExist` of
-- internal/domain/inbox.go over a repository of actors.
use estrys.Common.{String, List, ◌≡◌, inl, inr}
use estrys.Outcome.{ok}
use estrys.Models.{Url, PublicKey, Actor}
use estrys.Activity.{VocabLibrary}
use estrys.Ports.{Library, UserRepository, ActorRepository, KeyManager}
use estrys.Authorization.{Voter}
use estrys.Worker.Tasks.{WorkerClient}
use estrys.Domain.Inbox.Actors.{create_actor_if_no_exist_ok}
use estrys.Domain.Inbox.{create_actor_if_no_exist}

-- What the inbox relies on: the repository gives an actor under the URL that was asked for.
pub record IsActorStore {W : Type 0} (library : Library) (actors : ActorRepository W) : Type 0 where
  pub got :
      (url : Url) (actor : Actor) (w u : W)
      → actors.get url w ≡ (ok actor, u)
      → actor.url ≡ library.url_string url
  pub created :
      (url : Url) (key : PublicKey) (actor : Actor) (w u : W)
      → actors.create url key w ≡ (ok actor, u)
      → actor.url ≡ library.url_string url

module _ {W : Type 0} (library : Library) (vocab : VocabLibrary) (actors : ActorRepository W)
    (users : UserRepository W) (keys : KeyManager W) (worker : WorkerClient W) (voters : List Voter)
    (domain : Url) (trace_id : String) (store : IsActorStore library actors) where
  -- The actor of a request, known before or not, stands under the URL that the request gives.
  pub create_actor_if_no_exist-url :
      (url : Url) (actor : Actor) (w u : W)
      → create_actor_if_no_exist library vocab actors users keys worker voters domain trace_id url w
        ≡ (ok actor, u)
      → actor.url ≡ library.url_string url
  create_actor_if_no_exist-url url actor w u h =
      elim (create_actor_if_no_exist_ok _ _ _ _ _ _ _ _ _ url actor w u h) [
        | inl read ↦ store.got url actor w u read
        | inr new ↦ store.created url new.key actor new.fetched u new.is_created
      ]
