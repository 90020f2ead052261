-- ===== src/Tests/Storing.antt =====
-- The cache, the repository of users and the Twitter client over concrete stores.
use text.Mathlib.TextPositions.{eq_refl}
use estrys.Common.{
  String, str_eq, if◌then◌else◌, none, List, [], ◌∷◌, ◌≡◌, refl, sym, to_lower, replace_all, arith,
}
use estrys.Outcome.{
  Error, Result, ok, err, message, no_rows, redis_nil, cache_miss, pure, fail, lift, wrapping,
  match_call, ◌>>=◌,
}
use estrys.Outcome.Errors.{is_cache_miss, is_no_rows}
use estrys.Models.{User, UserObj, UserLookup}
use estrys.Ports.{Cache, Backend, Database, CreateUserRequest}
use estrys.Cache.{RedisClient, Codec, create_redis_cache}
use estrys.Cache.Laws.{IsLawful, IsRedis, IsCodec, create_redis_cache-IsLawful}
use estrys.Repository.Users.{new_user, lower_username, create_user, get_by_id, or_by_username, get}
use estrys.Twitter.Client.{
  any_not_found, checked_user, ignoring, remember, fetch_user, get_uncached, get_user,
  cache_key_username, cache_key_id,
}
use estrys.Twitter.Client.Laws.{get_user_again}
use estrys.Tests.Services.{alice_key, parser, profile}

-- The value that was stored last under a key
abbrev stored {ℓ} : {A : Type ℓ} → Error → String → List (String × A) → Result A
stored missing key [] = err missing
stored missing key ((k, v) ∷ entries) =
    let rest = stored missing key entries in if str_eq k key then ok v else rest

abbrev server : RedisClient (List (String × String))
server = record {
  get = λ key w. (stored redis_nil key w, w);
  set = λ key text ttl w. (key, text) ∷ w;
}

abbrev plain : Codec String
plain = record { marshal = λ s. ok s; unmarshal = λ s. ok s }

server-IsRedis : IsRedis server
server-IsRedis = record { get_state = λ key w. refl; get-set = λ k j text ttl w. refl }

plain-IsCodec : IsCodec plain
plain-IsCodec = record { unmarshal-marshal = λ v text h. ground arith }

create_redis_cache-IsLawful_example : IsLawful (create_redis_cache server plain [])
create_redis_cache-IsLawful_example =
    create_redis_cache-IsLawful server plain [] server-IsRedis plain-IsCodec

-- A cache of profiles
abbrev Profiles : Type 0
Profiles = List (String × UserObj)

abbrev profiles : Cache Profiles UserObj
profiles = record {
  get = λ key w. (stored cache_miss key w, w);
  set = λ key v w. (ok tt, (key, v) ∷ w);
}

profiles-IsLawful : IsLawful profiles
profiles-IsLawful = record { get_state = λ key w. refl; get-set = λ k j v w h. refl }

abbrev lookup_of : List String → UserLookup
lookup_of [] = record { users = []; errors = [] }
lookup_of (name ∷ names) = record { users = profile name ∷ []; errors = [] }

abbrev answering : Backend Profiles
answering = record {
  user_name_lookup = λ names. pure (lookup_of names);
  user_tweet_timeline = λ id start. fail (message "no timeline");
  tweet_lookup = λ ids. fail (message "no tweet");
  user_lookup = λ ids. pure (lookup_of ids);
}

abbrev silent : Backend Profiles
silent = record answering { user_name_lookup = λ names. fail (message "rate limit") }

fetching : Unit {0}
unfolding pure fail lift wrapping match_call ◌>>=◌ is_cache_miss any_not_found checked_user ignoring
    remember fetch_user get_uncached get_user cache_key_username cache_key_id replace_all
fetching = tt

get_user_again_example :
    get_user silent profiles "ada" (get_user answering profiles "ada" []).1
    ≡ (ok (profile "ada"), (get_user answering profiles "ada" []).1)
unfolding fetching
get_user_again_example =
    get_user_again profiles profiles-IsLawful (λ key v w. refl) answering silent "ada"
      (profile "ada") [] refl

-- A table of users
abbrev pub user_named : String → List User → Result User
user_named name [] = err no_rows
user_named name (row ∷ rows) =
    let rest = user_named name rows in if str_eq row.username name then ok row else rest

abbrev pub table : Database (List User)
table = record {
  user_by_id = λ id. fail no_rows;
  user_by_username = λ name w. (user_named name w, w);
  insert_user = λ user w. (ok tt, user ∷ w);
  add_actors = λ user actor. pure tt;
  remove_actors = λ user actor. pure tt;
  users_join_followers = pure none;
  actors_of = λ user. pure [];
  actor_by_url = λ url. fail no_rows;
  insert_actor = λ actor. pure tt;
  new_uuid = pure "u";
}

abbrev request : CreateUserRequest
request = record { username = "Ada"; id = "3"; created_at = 5; private_key = alice_key }

found_after :
    (user : User) (before after : List User)
    → table.insert_user user before ≡ (ok tt, after)
    → table.user_by_username user.username after ≡ (ok user, after)
found_after user before after h =
    let same : user ∷ before ≡ after = ground arith in
    rw (sym same) (rw (eq_refl user.username) refl)

searching : Unit {0}
unfolding pure fail wrapping match_call ◌>>=◌ is_no_rows to_lower create_user get_by_id
    or_by_username lower_username get
searching = tt

abbrev ada : User
ada = new_user parser request
