-- ===== src/Domain/Users/Laws.antt =====
-- The users that are to be bridged exist after they have been created.
use estrys.Common.{Option, none, some, String, List, [], ◌∷◌, length, to_lower, ◌≡◌, arith}
use estrys.Outcome.{ok, pure, fail, crash, match_call}
use estrys.Outcome.Inversion.{bind_done, wrapping_ok, lifted_done}
use estrys.Outcome.Keeps.{Keeps}
use estrys.Models.{Url, UserMetrics, PrivateKey, User, FullUser, UserObj}
use estrys.Ports.{Library, TwitterClient, CreateUserRequest, UserRepository, KeyManager}
use estrys.Domain.Users.{
  no_such_user, with_metrics, with_profile, get_full_user, get_or_create_all,
  batch_create_users_from_ids,
}

module _ {W : Type 0} (library : Library) (repo : UserRepository W) (keys : KeyManager W)
    (twitter : TwitterClient W) where
  get_or_create_all-length :
      (objs : List UserObj) (users : List User) (w u : W)
      → get_or_create_all library repo keys twitter objs w ≡ (ok users, u)
      → length users ≡ length objs
  unfolding get_or_create_all pure
  get_or_create_all-length [] users w u h = ground arith
  get_or_create_all-length (obj ∷ objs) users w u h =
      let (user, v, _, rest) = bind_done _ _ w h in
      let (others, x, more, last) = bind_done _ _ v rest in
      let ih = get_or_create_all-length objs others v x more in ground (arith, ih, last)

  -- A batch that succeeds returns one user for each user that Twitter knows.
  pub batch_create_users_from_ids-length :
      (ids : List String) (users : List User) (w u : W)
      → batch_create_users_from_ids library repo keys twitter ids w ≡ (ok users, u)
      → (objs : List UserObj) × (v : W) × (twitter.get_user_by_ids ids w ≡ (ok objs, v))
        × (length users ≡ length objs)
  unfolding batch_create_users_from_ids
  batch_create_users_from_ids-length ids users w u h =
      let (objs, v, first, rest) = bind_done _ _ w h in
      (objs, v, wrapping_ok _ _ w first, get_or_create_all-length objs users v u rest)

-- A user is found under a name, and looking it up changes nothing.
abbrev pub Has : {W : Type 0} → UserRepository W → String → W → Type 0
Has repo name w = (user : User) × (repo.get name w ≡ (ok user, w))

-- What a repository of users promises: looking up changes nothing, a row that is created is found under
-- its name in any case, and creating one removes none.
pub record IsUserStore {W : Type 0} (repo : UserRepository W) : Type 0 where
  pub get_reads : (name : String) (w : W) → (repo.get name w).1 ≡ w
  pub create_has :
      (request : CreateUserRequest) (name : String) (user : User) (w u : W)
      → repo.create_user request w ≡ (ok user, u)
      → to_lower request.username ≡ to_lower name
      → Has repo name u
  pub create_keeps :
      (request : CreateUserRequest) (name : String)
      → Keeps (Has repo name) (repo.create_user request)

-- What the services give: the repository keeps its users, no other service removes one, and Twitter
-- answers for the name that was asked.
pub record IsRegistry {W : Type 0} (repo : UserRepository W) (keys : KeyManager W)
    (twitter : TwitterClient W) : Type 0 where
  pub store : IsUserStore repo
  pub generate_keeps : (name : String) → Keeps (Has repo name) keys.generate_key
  pub get_user_keeps : (name other : String) → Keeps (Has repo name) (twitter.get_user other)
  pub get_user_named :
      (name : String) (obj : UserObj) (w u : W)
      → twitter.get_user name w ≡ (ok obj, u)
      → to_lower obj.user_name ≡ to_lower name

module _ {W : Type 0} (library : Library) (repo : UserRepository W) (keys : KeyManager W)
    (twitter : TwitterClient W) where
  -- The user that is shown has the name of its row, and the public key of its row's private key.
  pub record Shown (name : String) (user : FullUser) (w : W) : Type 0 where
    pub row : User
    pub found : W
    pub is_row : repo.get name w ≡ (ok row, found)
    pub key : PrivateKey
    pub is_key : library.parse_private_key row.private_key ≡ ok key
    pub is_username : user.username ≡ row.username
    pub is_public_key : user.public_key ≡ key.public_key

  row_ok :
      (name : String) (row : User) (w u : W)
      → match_call (repo.get name) pure (no_such_user library repo keys twitter) w ≡ (ok row, u)
      → repo.get name w ≡ (ok row, u)
  unfolding no_such_user match_call pure fail
  row_ok name row w u h = ground arith

  with_metrics_ok :
      (row : User) (obj : UserObj) (image : Url) (key : PrivateKey) (metrics : Option UserMetrics)
      (user : FullUser) (w u : W)
      → with_metrics library repo keys twitter row obj image key metrics w ≡ (ok user, u)
      → (user.username ≡ row.username) × (user.public_key ≡ key.public_key)
  unfolding with_metrics pure crash
  with_metrics_ok row obj image key none user w u h = cc h
  with_metrics_ok row obj image key (some metrics) user w u h =
      (ground (arith, h), ground (arith, h))

  pub get_full_user_ok :
      (name : String) (user : FullUser) (w u : W)
      → get_full_user library repo keys twitter name w ≡ (ok user, u)
      → Shown name user w
  unfolding get_full_user with_profile pure
  get_full_user_ok name user w u h =
      let (row, found, first, rest1) = bind_done _ _ w h in
      let (twitter_user, v, _, rest2) = bind_done _ _ found rest1 in
      let (image, _, rest3) = lifted_done _ _ _ v rest2 in
      let (key, is_key, rest4) = lifted_done _ _ _ v rest3 in
      record {
        row = row;
        found = found;
        is_row = row_ok name row w found first;
        key = key;
        is_key = is_key;
        is_username = (with_metrics_ok row twitter_user image key _ user v u rest4).0;
        is_public_key = (with_metrics_ok row twitter_user image key _ user v u rest4).1;
      }
