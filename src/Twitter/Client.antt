-- ===== src/Twitter/Client.antt =====
-- internal/twitter/client.go: the Twitter client with its cache of users. The lists of requested
-- fields are constants of a request and are part of the backend; logging is left out.
pub mod Laws
use estrys.Common.{
  String, str_eq, Bool, true, false, ◌||◌, if◌then◌else◌, List, [], ◌∷◌, ◌++◌, replace_all,
}
use estrys.Outcome.{
  Error, Result, ok, err, Action, user_not_found, message, wrap, pure, fail, lift, wrapping,
  match_call, ◌>>=◌, ◌>>◌,
}
use estrys.Outcome.Errors.{is_cache_miss}
use estrys.Models.{UserObj, UserLookup, TweetRaw, Timeline, TimelineStart}
use estrys.Ports.{Cache, Backend, TwitterClient}

abbrev pub error_type_not_found : String
error_type_not_found = "https://api.twitter.com/2/problems/resource-not-found"

unfoldable pub cache_key_username : String → String
unfolding replace_all
cache_key_username username = replace_all "twitter/user/by-username/%s" "%s" username

unfoldable pub cache_key_id : String → String
unfolding replace_all
cache_key_id id = replace_all "twitter/user/by-id/%s" "%s" id

unfoldable pub any_not_found : List String → Bool
any_not_found [] = false
any_not_found (e ∷ errors) = str_eq e error_type_not_found || any_not_found errors

-- The last check, and `lookup.Raw.Users[0]`
no_errors : UserObj → List String → Result UserObj
no_errors user [] = ok user
no_errors user (e ∷ errors) = err (message "unable to fetch twitter user")

first_user : String → List UserObj → List String → Result UserObj
unfolding no_errors
first_user username [] errors = err (user_not_found username)
first_user username (user ∷ users) errors = no_errors user errors

-- The checks of `GetUser` on the answer of the lookup
unfoldable pub checked_user : String → UserLookup → Result UserObj
unfolding first_user any_not_found
checked_user username lookup =
    if any_not_found lookup.errors
    then err (user_not_found username)
    else first_user username lookup.users lookup.errors

abbrev pub lookup_users : List String → List UserObj → Result (List UserObj)
lookup_users [] users = ok users
lookup_users (e ∷ errors) users = err (message "unable to fetch users from twitter")

module _ {W : Type 0} where
  -- An error that the code logs or drops
  unfoldable pub ignoring : Action W (Unit {0}) → Action W (Unit {0})
  ignoring m = match_call m pure (λ e. pure tt)

module _ {W : Type 0} (backend : Backend W) (cache : Cache W UserObj) where
  get_user_tweets : String → TimelineStart → Action W Timeline
  get_user_tweets id start =
      wrapping "unable to fetch user tweets" (backend.user_tweet_timeline id start)

  get_tweets : List String → Action W TweetRaw
  get_tweets ids = wrapping "unable to fetch tweets" (backend.tweet_lookup ids)

  -- The user is saved under both keys, and an error there is not reported.
  unfoldable pub remember : String → UserObj → Action W UserObj
  remember username user = do
    ignoring (cache.set (cache_key_username username) user)
    ignoring (cache.set (cache_key_id user.id) user)
    pure user

  -- `GetUser` after a miss
  unfoldable pub fetch_user : String → Action W UserObj
  fetch_user username = do
    lookup ← wrapping "unable to fetch twitter user" (backend.user_name_lookup (username ∷ []))
    user ← lift (checked_user username lookup)
    remember username user

  -- `GetUser` when the cache returned an error
  unfoldable pub get_uncached : String → Error → Action W UserObj
  get_uncached username e =
      if is_cache_miss e
      then fetch_user username
      else fail (wrap "error while retrieving twitter user from cache" e)

  unfoldable pub get_user : String → Action W UserObj
  get_user username =
      match_call (cache.get (cache_key_username username)) pure (get_uncached username)

  -- The loop over the ids: what the cache holds, and the ids that it misses
  unfoldable pub collect :
      List String → List UserObj → List String → Action W (List UserObj × List String)
  collect [] results missing = pure (results, missing)
  collect (id ∷ ids) results missing =
      match_call (cache.get (cache_key_id id)) (λ user. collect ids (results ++ user ∷ []) missing)
        λ e.
          let missed = collect ids results (missing ++ id ∷ []) in
          if is_cache_miss e
          then missed
          else fail (wrap "error while retrieving twitter user from cache" e)

  unfoldable pub fetch_missing : List UserObj → List String → Action W (List UserObj)
  fetch_missing results [] = pure results
  fetch_missing results (id ∷ ids) = do
    lookup ← wrapping "unable to fetch users from twitter" (backend.user_lookup (id ∷ ids))
    users ← lift (lookup_users lookup.errors lookup.users)
    pure (results ++ users)

  unfoldable pub get_user_by_ids : List String → Action W (List UserObj)
  get_user_by_ids ids = do found ← collect ids [] []; fetch_missing found.0 found.1

  unfoldable pub new_client : TwitterClient W
  unfolding get_user_tweets get_tweets
  new_client = record {
    get_user_tweets = get_user_tweets;
    get_tweets = get_tweets;
    get_user = get_user;
    get_user_by_ids = get_user_by_ids;
  }
