-- ===== src/Repository/Users.antt =====
-- internal/repository/user.go over the statements of the generated models. The executor of a
-- context (Executor) is part of the database.
pub mod Laws
pub mod Store
use estrys.Common.{String, Bool, if◌then◌else◌, Option, none, some, List, to_lower}
use estrys.Outcome.{Action, Error, wrap, pure, fail, wrapping, match_call, ◌>>=◌, ◌>>◌}
use estrys.Outcome.Errors.{is_no_rows}
use estrys.Models.{User, Actor}
use estrys.Ports.{Library, Database, UserRepository, CreateUserRequest}

unfoldable pub lower_username : User → User
lower_username user = record user { username = to_lower user.username }

-- The row of a new user
abbrev pub new_user : Library → CreateUserRequest → User
new_user library input = record {
  username = to_lower input.username;
  id = input.id;
  private_key = library.marshal_private_key input.private_key;
  created_at = input.created_at;
}

module _ {W : Type 0} (library : Library) (db : Database W) where
  unfoldable pub create_user : CreateUserRequest → Action W User
  create_user input = do
    wrapping "unable to save user" (db.insert_user (new_user library input))
    pure (new_user library input)

  follow : User → Actor → Action W (Unit {0})
  follow user actor = wrapping "unable to add actor to user" (db.add_actors user actor)

  un_follow : User → Actor → Action W (Unit {0})
  un_follow user actor = wrapping "unable to remove actor from user" (db.remove_actors user actor)

  -- The lookup by id, which is made for a decimal number only
  unfoldable pub get_by_id : String → Action W (Option User)
  get_by_id id =
      if library.parse_int id
      then match_call (db.user_by_id id) (λ user. pure (some user))
          (λ e.
            if is_no_rows e then pure none else fail (wrap "unable to fetch user from database" e))
      else pure none

  unfoldable pub or_by_username : String → Option User → Action W User
  or_by_username username (some user) = pure user
  or_by_username username none =
      wrapping "unable to fetch user from database" (db.user_by_username username)

  unfoldable pub get : String → Action W User
  get username_or_id = do
    by_id ← get_by_id (to_lower username_or_id)
    user ← or_by_username (to_lower username_or_id) by_id
    pure (lower_username user)

  get_with_followers : Action W (Option (List User))
  get_with_followers = db.users_join_followers

  get_followers : User → Action W (List Actor)
  get_followers user = db.actors_of user

  unfoldable pub new_user_repository : UserRepository W
  unfolding follow un_follow get_with_followers get_followers
  new_user_repository = record {
    get = get;
    get_followers = get_followers;
    follow = follow;
    un_follow = un_follow;
    create_user = create_user;
    get_with_followers = get_with_followers;
  }
