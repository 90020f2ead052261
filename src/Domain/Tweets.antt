-- ===== src/Domain/Tweets.antt =====
-- internal/domain/tweet.go: a tweet is fetched with the tweets that it references, its authors are
-- created, and all are stored. Spans and logging are left out.
pub mod Bounds
pub mod Saved
pub mod Retweets
pub mod Links
use estrys.Common.{
  ℕ, String, str_eq, Bool, true, false, ◌==◌, if◌then◌else◌, Option, none, some, List, [], ◌∷◌,
  ◌++◌, map, length, to_lower,
}
use estrys.Outcome.{
  Error, Result, ok, err, panic, message, Action, pure, fail, crash, lift, wrapping, match_call,
  ◌>>=◌, ◌>>◌,
}
use estrys.Outcome.Fallible.{or_nil}
use estrys.Models.{
  Url, TweetMedia, TweetFields, Tweet, Tweets, tweet, nil, cons, fields, append_reference, MediaObj,
  UserObj, Reference, TweetObj, Includes, TweetRaw,
}
use estrys.Ports.{Library, TwitterClient, TweetRepository, UserService, TweetService}
use estrys.Domain.Tweets.Links.{drop_last_link}

abbrev pub media_of : Library → MediaObj → TweetMedia
media_of library media = record {
  kind = media.kind;
  url = or_nil (library.parse_url media.url);
  width = media.width;
  height = media.height;
}

module _ (library : Library) where
  -- The inner loop over the media of the answer
  unfoldable pub medias_with_key : String → List MediaObj → List TweetMedia
  medias_with_key key [] = []
  medias_with_key key (media ∷ rest) =
      let others = medias_with_key key rest in
      if str_eq key media.key then media_of library media ∷ others else others

  unfoldable pub medias_of : List String → List MediaObj → List TweetMedia
  medias_of [] media = []
  medias_of (key ∷ keys) media = medias_with_key key media ++ medias_of keys media

  -- `tweet.Attachments != nil && include != nil`
  unfoldable pub attached_medias : Option (List String) → Option Includes → List TweetMedia
  attached_medias none include = []
  attached_medias (some keys) none = []
  attached_medias (some keys) (some include) = medias_of keys include.media

-- The first included user with the author's id
unfoldable pub author_among : String → List UserObj → String
author_among id [] = ""
author_among id (user ∷ users) =
    let rest = author_among id users in if str_eq id user.id then to_lower user.user_name else rest

unfoldable pub author_name : String → Option Includes → String
author_name id none = ""
author_name id (some include) = author_among id include.users

unfoldable pub convert_tweet : Library → TweetObj → String → Option Includes → Result Tweet
convert_tweet library raw reference_type include = elim (library.parse_time raw.created_at) [
  | ok created_at ↦ ok (
      tweet
        (record {
          id = raw.id;
          author_id = raw.author_id;
          author_username = author_name raw.author_id include;
          referenced_type = reference_type;
          text = drop_last_link raw.text;
          published = created_at;
          sensitive = raw.sensitive;
          medias = attached_medias library raw.media_keys include;
        })
        nil)
  | err e ↦ err (Error.wrap "unable to decode tweet date" e)
  | panic why ↦ panic why
]

-- The type of a reference to an id; where there are several, the last one counts.
unfoldable pub reference_type : String → String → List Reference → String
reference_type found id [] = found
reference_type found id (ref ∷ refs) =
    reference_type (if str_eq ref.id id then ref.kind else found) id refs

unfoldable pub convert_all :
    Library → List Reference → List TweetObj → Option Includes → Result (List Tweet)
convert_all library refs [] include = ok []
convert_all library refs (raw ∷ raws) include =
    elim (convert_tweet library raw (reference_type "" raw.id refs) include) [
      | ok t ↦ elim (convert_all library refs raws include) [
        | ok ts ↦ ok (t ∷ ts)
        | err e ↦ err e
        | panic why ↦ panic why
      ]
      | err e ↦ err e
      | panic why ↦ panic why
    ]

abbrev pub with_references : Tweet → List Tweet → Tweet
with_references t [] = t
with_references (tweet f refs) (r ∷ rs) = with_references (tweet f (append_reference refs r)) rs

module _ {W : Type 0} (library : Library) (users : UserService W) (twitter : TwitterClient W)
    (repo : TweetRepository W) where
  unfoldable pub fetch_raw_tweet : List String → Action W TweetRaw
  fetch_raw_tweet ids = do
    raw ← wrapping "error while fetching tweet details from twitter" (twitter.get_tweets ids)
    if length raw.tweets == length ids
        then pure raw
        else fail (message "unexpected number of tweets returned")

  -- A tweet that the repository knows; an error there counts as a miss.
  unfoldable pub known_tweet : String → Action W (Option Tweet)
  known_tweet id = match_call (repo.get_tweet id) pure (λ e. pure none)

  -- The first loop of `fetchReferencedTweets`: the tweets that are known, and the ids that are not
  unfoldable pub split_references : List Reference → Action W (List Tweet × List String)
  split_references [] = pure ([], [])
  split_references (ref ∷ refs) = do
    found ← known_tweet ref.id
    rest ← split_references refs
    pure (elim found [ some t ↦ (t ∷ rest.0, rest.1) | none ↦ (rest.0, ref.id ∷ rest.1) ])

  unfoldable pub fetch_missing : List Reference → List Tweet → List String → Action W (List Tweet)
  fetch_missing refs known [] = pure known
  fetch_missing refs known (id ∷ ids) = do
    raw ← fetch_raw_tweet (id ∷ ids)
    fetched ← lift (convert_all library refs raw.tweets raw.includes)
    pure (known ++ fetched)

  unfoldable pub fetch_referenced_tweets : TweetObj → Action W (List Tweet)
  fetch_referenced_tweets raw = do
    found ← split_references raw.referenced
    fetch_missing raw.referenced found.0 found.1

  unfoldable pub store_all : List Tweet → Action W (Unit {0})
  store_all [] = pure tt
  store_all (t ∷ ts) = do wrapping "unable to save referenced tweet" (repo.store t); store_all ts

  unfoldable pub save_referenced_tweets : List Tweet → Action W (Unit {0})
  save_referenced_tweets ts = do
    wrapping "unable to create users for referenced tweets"
        (users.batch_create_users_from_ids (map (λ t. (fields t).author_id) ts))
    store_all ts

  -- The tweets that a tweet references, fetched and saved
  unfoldable pub resolve_references : TweetObj → List Reference → Action W (List Tweet)
  resolve_references raw [] = pure []
  resolve_references raw (ref ∷ refs) = do
    referenced ← wrapping "unable to fetch referenced tweets" (fetch_referenced_tweets raw)
    save_referenced_tweets referenced
    pure referenced

  unfoldable pub save_raw_tweet : TweetObj → Option Includes → Action W Tweet
  save_raw_tweet raw include = do
    t ← lift (convert_tweet library raw "" include)
    referenced ← resolve_references raw raw.referenced
    let whole = with_references t referenced
    wrapping "unable to fetch author for tweet"
        (users.batch_create_users_from_ids (raw.author_id ∷ []))
    wrapping "unable to save tweet" (repo.store whole)
    pure whole

  -- `rawTweet.Tweets[0]`
  unfoldable pub save_first : TweetRaw → List TweetObj → Action W Tweet
  save_first answer [] = crash "index out of range"
  save_first answer (raw ∷ raws) = save_raw_tweet raw answer.includes

  unfoldable pub save_unknown : String → Option Tweet → Action W Tweet
  save_unknown id (some t) = pure t
  save_unknown id none = do answer ← fetch_raw_tweet (id ∷ []); save_first answer answer.tweets

  unfoldable pub save_tweet_and_references : String → Action W Tweet
  save_tweet_and_references id = do known ← known_tweet id; save_unknown id known

  unfoldable pub new_tweet_service : TweetService W
  new_tweet_service = record { save_tweet_and_references = save_tweet_and_references }
