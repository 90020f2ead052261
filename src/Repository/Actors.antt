-- ===== src/Repository/Actors.antt =====
-- internal/repository/actor.go
pub mod Named
use estrys.Common.{String}
use estrys.Outcome.{Action, pure, lift, wrapping, ◌>>=◌, ◌>>◌}
use estrys.Models.{Url, PublicKey, Actor}
use estrys.Ports.{Library, Database, ActorRepository}

-- The row of a new actor
abbrev pub new_actor : Library → String → Url → String → Actor
new_actor library id url public_key = record {
  id = id;
  url = library.url_string url;
  public_key = public_key;
}

module _ {W : Type 0} (library : Library) (db : Database W) where
  unfoldable pub create : Url → PublicKey → Action W Actor
  create url key = do
    public_key ←
        wrapping "unable to decode actor public key" (lift (library.marshal_public_key key))
    id ← wrapping "unable to generate a valid UUIDv4 for actor" db.new_uuid
    wrapping "unable to save actor in db" (db.insert_actor (new_actor library id url public_key))
    pure (new_actor library id url public_key)

  unfoldable pub get : Url → Action W Actor
  get url = wrapping "unable to fetch actor from db" (db.actor_by_url (library.url_string url))

  unfoldable pub new_actor_repository : ActorRepository W
  new_actor_repository = record { get = get; create = create }
