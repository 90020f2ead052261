-- ===== src/Twitter/Tweets.antt =====
-- internal/twitter/repository/tweet_repository.go: the tweets in the cache. Storing a tweet also
-- lowers the author's name in the caller's tweet, which is `lowered`; the tweets that the program
-- stores have such names before.
pub mod Laws
use estrys.Common.{String, if◌then◌else◌, Option, none, some, to_lower}
use estrys.Outcome.{Action, pure, fail, match_call}
use estrys.Outcome.Errors.{is_cache_miss}
use estrys.Models.{Tweet, tweet, fields, referenced_tweets}
use estrys.Ports.{Cache, TweetRepository}
use Prim.Native.String.{◌++◌ as cat}

-- `strings.Join` of the three parts
unfoldable pub get_tweet_cache_key : String → String
get_tweet_cache_key id = cat "twitter/tweets/" id

unfoldable pub lowered : Tweet → Tweet
lowered t =
    tweet (record (fields t) { author_username = to_lower (fields t).author_username })
      (referenced_tweets t)

module _ {W : Type 0} (cache : Cache W Tweet) where
  -- A miss is no error, and there is no tweet then.
  unfoldable pub get_tweet : String → Action W (Option Tweet)
  get_tweet id =
      match_call (cache.get (get_tweet_cache_key id)) (λ t. pure (some (lowered t)))
        λ e. if is_cache_miss e then pure none else fail e

  unfoldable pub store : Tweet → Action W (Unit {0})
  store t = cache.set (get_tweet_cache_key (fields t).id) (lowered t)

  unfoldable pub new_tweet_repository : TweetRepository W
  new_tweet_repository = record { get_tweet = get_tweet; store = store }
