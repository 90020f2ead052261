-- ===== src/Config.antt =====
-- internal/config/config.go: the configuration is read from the environment and two files. The reader
-- (`viper`) and the parsers are parameters.
pub mod Laws
use estrys.Common.{List, ℕ, String, str_eq, Bool, true, false, not, ◌&&◌, if◌then◌else◌}
use estrys.Outcome.{Result, ok, err, panic, message, wrap_result}
use estrys.Outcome.Fallible.{◌>>=◌, ◌>>◌}
use estrys.Models.{Url}

-- `time.Duration`, in nanoseconds: the negative ones are `backward`.
pub data Duration : Type 0 where
  forward backward : ℕ → Duration

-- The fields that `viper` fills by itself; the rate of traces, which nothing reads but a library, is left
-- out.
pub record Fields : Type 0 where
  pub address : String
  pub token : String
  pub redis_address : String
  pub disable_http_signature_verify : Bool
  pub disable_embed_worker : Bool
  pub allowed_users : List String
  pub twitter_allowed_users : List String
  pub run_migrations : Bool
  pub sentry_dsn : String

pub record Config : Type 0 where
  pub fields : Fields
  pub domain : Url
  pub log_level : ℕ
  pub db_url : Url
  pub twitter_user_cache_timeout : Duration
  pub twitter_tweet_cache_timeout : Duration

-- What the libraries read: the file `.env`, the values of keys, and the texts' parsers
pub record Settings : Type 0 where
  pub read_in_config : Result (Unit {0})
  pub is_test : Bool
  -- `viper.Unmarshal`
  pub unmarshal : Result Fields
  pub get_string : String → String
  pub parse_url : String → Result Url
  pub parse_level : String → Result ℕ
  pub parse_duration : String → Result Duration

-- `if value == "" { return errors.New(text) }`
unfoldable pub required : String → String → Result String
required text value = if str_eq value "" then err (message text) else ok value

-- Outside the tests, the default file must be readable.
unfoldable pub read_default : Settings → Result (Unit {0})
read_default settings = elim settings.read_in_config [
  | ok done ↦ ok tt
  | err e ↦
      (if settings.is_test then ok tt else err (message "unable to read default config from .env"))
  | panic why ↦ panic why
]

-- The lifetime of cached tweets, which stays zero without a value
unfoldable pub tweet_cache_timeout : Settings → Result Duration
tweet_cache_timeout settings =
    if str_eq (settings.get_string "cache_tweet_ttl") ""
    then ok (forward 0)
    else wrap_result "unable to parse tweets cache ttl duration"
        (settings.parse_duration (settings.get_string "cache_tweet_ttl"))

-- `Load`
unfoldable pub load : Settings → Result Config
load settings = do
  read_default settings
  fields ← wrap_result "unable to deserialize configuration" settings.unmarshal
  domain_str ← required "You must define a domain" (settings.get_string "domain")
  domain ← wrap_result "unable to parse domain" (settings.parse_url domain_str)
  level_str ← required "You must define a log level" (settings.get_string "log_level")
  log_level ← wrap_result "unable to parse log level" (settings.parse_level level_str)
  db_str ← required "You must define a database URL" (settings.get_string "db_url")
  db_url ← wrap_result "unable to parse database URL" (settings.parse_url db_str)
  duration ←
      required "You must define a twitter user cache duration"
        (settings.get_string "cache_twitter_user_ttl")
  user_timeout ←
      wrap_result "unable to parse twitter cache duration" (settings.parse_duration duration)
  tweet_timeout ← tweet_cache_timeout settings
  required "you need to configure a token" fields.token
  ok (record {
    fields = fields;
    domain = domain;
    log_level = log_level;
    db_url = db_url;
    twitter_user_cache_timeout = user_timeout;
    twitter_tweet_cache_timeout = tweet_timeout;
  })

-- `l.conf` after `Load`: it is replaced only at the end.
unfoldable pub loaded : Config → Settings → Config × Result (Unit {0})
loaded old settings = elim (load settings) [
  | ok conf ↦ (conf, ok tt)
  | err e ↦ (old, err e)
  | panic why ↦ (old, panic why)
]
