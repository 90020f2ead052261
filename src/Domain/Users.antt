-- ===== src/Domain/Users.antt =====
-- internal/domain/users.go: users from the database and from Twitter.
pub mod Laws
pub mod Registry
use estrys.Common.{
  String, Bool, true, false, if◌then◌else◌, Option, none, some, List, [], ◌∷◌, replace_all,
}
use estrys.Outcome.{
  Error, user_does_not_exist, twitter_user_does_not_exist, wrap, with_stack, Action, pure, fail,
  crash, lift, wrapping, match_call, ◌>>=◌, ◌>>◌,
}
use estrys.Outcome.Errors.{is_no_rows, is_user_not_found}
use estrys.Models.{Url, PrivateKey, User, FullUser, UserMetrics, UserObj}
use estrys.Ports.{
  Library, TwitterClient, CreateUserRequest, UserRepository, KeyManager, UserService,
}

-- The row and the profile, joined
abbrev pub full_user : User → UserObj → Url → PrivateKey → UserMetrics → FullUser
full_user user twitter_user image key metrics = record {
  name = twitter_user.name;
  username = user.username;
  description = twitter_user.description;
  profile_image_url = image;
  created_at = user.created_at;
  metrics = metrics;
  public_key = key.public_key;
}

module _ {W : Type 0} (library : Library) (repo : UserRepository W) (keys : KeyManager W)
    (twitter : TwitterClient W) where
  unfoldable pub no_such_user : Error → Action W User
  no_such_user e = if is_no_rows e then fail (with_stack user_does_not_exist) else fail e

  -- The pointer `PublicMetrics` of the profile may be nil.
  unfoldable pub with_metrics :
      User → UserObj → Url → PrivateKey → Option UserMetrics → Action W FullUser
  with_metrics user twitter_user image key none = crash "nil pointer dereference"
  with_metrics user twitter_user image key (some metrics) =
      pure (full_user user twitter_user image key metrics)

  unfoldable pub with_profile : User → UserObj → Action W FullUser
  with_profile user twitter_user = do
    image ←
        wrapping "unable to parse profile image url"
          (lift (library.parse_url (replace_all twitter_user.profile_image_url "_normal" "")))
    key ←
        wrapping "unable to decode private key" (lift (library.parse_private_key user.private_key))
    with_metrics user twitter_user image key twitter_user.metrics

  unfoldable pub get_full_user : String → Action W FullUser
  get_full_user username = do
    user ← match_call (repo.get username) pure no_such_user
    twitter_user ← wrapping "unable to fetch twitter user info" (twitter.get_user username)
    with_profile user twitter_user

  unfoldable pub create_user_from_twitter : UserObj → Action W User
  create_user_from_twitter twitter_user = do
    key ← wrapping "unable to generate private key for user" keys.generate_key
    created_at ←
        wrapping "unable to parse user creation date from twitter"
          (lift (library.parse_time twitter_user.created_at))
    wrapping "unable to create user" (
        repo.create_user (record {
          username = twitter_user.user_name;
          id = twitter_user.id;
          created_at = created_at;
          private_key = key;
        }))

  -- One round of `BatchCreateUsersFromIDs`
  unfoldable pub get_or_create : UserObj → Action W User
  get_or_create twitter_user = match_call (repo.get twitter_user.id) pure λ e.
      if is_no_rows e
      then wrapping "unable to create user" (create_user_from_twitter twitter_user)
      else fail (wrap "unable to fetch user from db" e)

  unfoldable pub get_or_create_all : List UserObj → Action W (List User)
  get_or_create_all [] = pure []
  get_or_create_all (twitter_user ∷ rest) = do
    user ← get_or_create twitter_user
    users ← get_or_create_all rest
    pure (user ∷ users)

  unfoldable pub batch_create_users_from_ids : List String → Action W (List User)
  batch_create_users_from_ids ids = do
    twitter_users ←
        wrapping "unable to retrieve twitter users from id list" (twitter.get_user_by_ids ids)
    get_or_create_all twitter_users

  -- The user's row, or none where there is no row
  unfoldable pub find_user : String → Action W (Option User)
  find_user username =
      match_call (repo.get username) (λ user. pure (some user))
        λ e. if is_no_rows e then pure none else fail (wrap "unable to fetch user from db" e)

  unfoldable pub profile_of : String → Action W UserObj
  profile_of username = match_call (twitter.get_user username) pure λ e.
      if is_user_not_found username e then fail (twitter_user_does_not_exist username) else fail e

  unfoldable pub create_if_missing : Option User → UserObj → Action W (Unit {0})
  create_if_missing (some user) twitter_user = pure tt
  create_if_missing none twitter_user = create_user_from_twitter twitter_user >> pure tt

  unfoldable pub batch_create_users : List String → Action W (Unit {0})
  batch_create_users [] = pure tt
  batch_create_users (username ∷ usernames) = do
    user ← find_user username
    twitter_user ← profile_of username
    create_if_missing user twitter_user
    batch_create_users usernames

  unfoldable pub new_user_service : UserService W
  new_user_service = record {
    get_full_user = get_full_user;
    batch_create_users_from_ids = batch_create_users_from_ids;
    batch_create_users = batch_create_users;
  }
