-- ===== src/Models.antt =====
-- The data of the program: the rows of the database (internal/models), the tweets that are stored
-- (internal/twitter/models/tweet.go), the users that are shown (internal/domain/domainmodels), and
-- what the Twitter API answers. An instant is a number; a URL keeps the parts that are read.
use estrys.Common.{
  [], none, some, String, str_eq, ℕ, Bool, if◌then◌else◌, Option, none, some, List, to_lower,
}

pub record Url : Type 0 where
  pub scheme : String
  pub host : String
  pub path : String

-- The Go type of a key; an Ed25519 key that is parsed is a value, `ed25519.PublicKey`, and no pointer.
pub data KeyKind : Type 0 where
  rsa ecdsa ed25519 ed25519_pointer other_kind : KeyKind

pub record PublicKey : Type 0 where
  pub kind : KeyKind
  pub bytes : String

pub record PrivateKey : Type 0 where
  pub bytes : String
  pub public_key : PublicKey

pub record User : Type 0 where
  pub username : String
  pub id : String
  pub private_key : String
  pub created_at : ℕ

pub record Actor : Type 0 where
  pub id : String
  pub url : String
  pub public_key : String

pub record UserMetrics : Type 0 where
  pub following : ℕ
  pub followers : ℕ
  pub tweets : ℕ

-- The user of internal/domain/domainmodels/user.go, which joins the row and the Twitter profile.
pub record FullUser : Type 0 where
  pub name : String
  pub username : String
  pub description : String
  pub profile_image_url : Url
  pub created_at : ℕ
  pub metrics : UserMetrics
  pub public_key : PublicKey

pub record TweetMedia : Type 0 where
  pub kind : String
  pub url : Option Url
  pub width : ℕ
  pub height : ℕ

pub record TweetFields : Type 0 where
  pub id : String
  pub author_id : String
  pub author_username : String
  pub referenced_type : String
  pub text : String
  pub published : ℕ
  pub sensitive : Bool
  pub medias : List TweetMedia

-- A tweet with the tweets that it references.
mutual
  pub data Tweet : Type 0 where
    tweet : TweetFields → Tweets → Tweet

  pub data Tweets : Type 0 where
    nil : Tweets
    cons : Tweet → Tweets → Tweets

abbrev pub fields : Tweet → TweetFields
fields (tweet f refs) = f

abbrev pub referenced_tweets : Tweet → Tweets
referenced_tweets (tweet f refs) = refs

-- `append(tweet.ReferencedTweets, *referencedTweet)`
abbrev pub append_reference : Tweets → Tweet → Tweets
append_reference nil t = cons t nil
append_reference (cons u us) t = cons u (append_reference us t)

abbrev pub reference_type_retweet : String
reference_type_retweet = "retweeted"

-- `IsAuthoredBy`; `strings.EqualFold` on names of ASCII letters
unfoldable pub is_authored_by : Tweet → String → Bool
is_authored_by t username = str_eq (to_lower (fields t).author_username) (to_lower username)

unfoldable pub first_retweet : Tweets → Option Tweet
first_retweet nil = none
first_retweet (cons t ts) =
    let rest = first_retweet ts in
    if str_eq (fields t).referenced_type reference_type_retweet then some t else rest

-- `Retweet`
unfoldable pub retweet : Tweet → Option Tweet
unfolding first_retweet
retweet t = first_retweet (referenced_tweets t)

-- What the Twitter API returns (the types of its client library).
pub record UserObj : Type 0 where
  pub id : String
  pub name : String
  pub user_name : String
  pub description : String
  pub profile_image_url : String
  pub created_at : String
  pub metrics : Option UserMetrics

pub record UserLookup : Type 0 where
  pub users : List UserObj
  -- the type of each error
  pub errors : List String

pub record MediaObj : Type 0 where
  pub key : String
  pub kind : String
  pub url : String
  pub width : ℕ
  pub height : ℕ

pub record Reference : Type 0 where
  pub id : String
  pub kind : String

pub record TweetObj : Type 0 where
  pub id : String
  pub text : String
  pub author_id : String
  pub created_at : String
  pub sensitive : Bool
  -- `Attachments.MediaKeys`, or none when there are no attachments
  pub media_keys : Option (List String)
  pub referenced : List Reference

pub record Includes : Type 0 where
  pub media : List MediaObj
  pub users : List UserObj

pub record TweetRaw : Type 0 where
  pub tweets : List TweetObj
  pub includes : Option Includes

pub record TimelineMeta : Type 0 where
  pub result_count : ℕ
  pub newest_id : String

-- The pointers `Meta` and `Raw` of an answer may be nil.
pub record Timeline : Type 0 where
  pub meta : Option TimelineMeta
  pub raw : Option (List TweetObj)

-- The tweets that an answer counts, its newest id and its tweets, where it has them
abbrev pub count_of : Timeline → ℕ
count_of answer = elim answer.meta [ none ↦ 0 | some meta ↦ meta.result_count ]

abbrev pub newest_of : Timeline → String
newest_of answer = elim answer.meta [ none ↦ "" | some meta ↦ meta.newest_id ]

abbrev pub tweets_of : Timeline → List TweetObj
tweets_of answer = elim answer.raw [ none ↦ [] | some tweets ↦ tweets ]

-- `SinceID` or `StartTime` of a timeline request
pub data TimelineStart : Type 0 where
  since_id : String → TimelineStart
  start_time : ℕ → TimelineStart
