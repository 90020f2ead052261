-- ===== src/Tests/Services.antt =====
-- Concrete services over one world: a queue of tasks, a count of requests, the rows of the users,
-- and who follows whom.
use Prim.Native.String.{◌++◌ as cat}
use estrys.Common.{
  ℕ, suc, String, str_eq, false, if◌then◌else◌, none, some, List, [], ◌∷◌, ◌++◌, to_lower,
}
use estrys.Outcome.{Result, ok, err, message, no_rows, pure, fail}
use estrys.Outcome.Texts.{LibraryTexts}
use estrys.Models.{
  Url, rsa, PublicKey, PrivateKey, User, Actor, UserMetrics, UserObj, TweetObj, Timeline, TweetRaw,
}
use estrys.Activity.{iri, Property, Serialized, text, structure, VocabLibrary}
use estrys.Ports.{
  Library, CreateUserRequest, TwitterClient, UserRepository, ActorRepository, KeyManager,
  TweetRepository, UserService, UrlGenerator,
}
use estrys.Urls.{Router, new_url_generator}
use estrys.Worker.Tasks.{Task, WorkerClient}

pub record World : Type 0 where
  pub queue : List Task
  pub requests : ℕ
  pub rows : List User
  pub followers : List (String × String)

abbrev pub alice : User
alice = record { username = "alice"; id = "1"; private_key = "k"; created_at = 7 }

abbrev pub nobody_yet : World
nobody_yet = record { queue = []; requests = 0; rows = []; followers = [] }

abbrev pub with_alice : World
with_alice = record { queue = []; requests = 0; rows = alice ∷ []; followers = [] }

abbrev pub alice_url : Url
alice_url = record { scheme = "https"; host = "here"; path = "/users/alice" }

abbrev pub bob_url : Url
bob_url = record { scheme = "https"; host = "far"; path = "/users/bob" }

abbrev pub bob : Actor
bob = record { id = "2"; url = "https://far/users/bob"; public_key = "p" }

abbrev pub bob_key : PublicKey
bob_key = record { kind = rsa; bytes = "p" }

abbrev pub alice_key : PrivateKey
alice_key = record { bytes = "k"; public_key = bob_key }

abbrev url_text : Url → String
url_text url = cat url.scheme (cat "://" (cat url.host url.path))

abbrev pub parser : Library
parser = record {
  parse_url = λ s.
      if str_eq s "https://here/users/alice"
      then ok alice_url
      else if str_eq s "https://far/users/bob"
      then ok bob_url
      else err (message "no url");
  url_string = url_text;
  hostname = λ url. url.host;
  parse_time = λ s. ok 7;
  parse_int = λ s. false;
  parse_private_key = λ s. ok alice_key;
  marshal_private_key = λ key. key.bytes;
  marshal_public_key = λ key. ok key.bytes;
}

abbrev serialized : Property → Result Serialized
serialized (iri url ∷ []) = ok (text (url_text url))
serialized _ = ok structure

abbrev pub printer : VocabLibrary
printer = record {
  serialize_property = serialized;
  serialize_follow = λ act. ok "follow";
  serialize_message = λ act. ok "act";
  encode_message = λ s. ok s;
}

-- A path with the name of the user, and the URLs of this instance
abbrev routed : String → List String → Result Url
routed route (key ∷ name ∷ rest) = ok (record { scheme = ""; host = ""; path = cat "/users/" name })
routed route _ = err (message "missing value")

abbrev pub router : Router
router = record { route_url = routed }

abbrev pub here : Url
here = record { scheme = "https"; host = "here"; path = "" }

abbrev pub urls : UrlGenerator
urls = new_url_generator router here

abbrev pub worker : WorkerClient World
worker = record { enqueue = λ task w. (ok tt, record w { queue = w.queue ++ task ∷ [] }) }

abbrev pub metrics : UserMetrics
metrics = record { following = 0; followers = 1; tweets = 2 }

-- The profile of a name
abbrev pub profile : String → UserObj
profile name = record {
  id = "1";
  name = "Someone";
  user_name = name;
  description = "";
  profile_image_url = "https://here/users/alice";
  created_at = "then";
  metrics = some metrics;
}

abbrev pub hello : TweetObj
hello = record {
  id = "20";
  text = "hello https://t.co/0123456789";
  author_id = "1";
  created_at = "then";
  sensitive = false;
  media_keys = none;
  referenced = [];
}

abbrev pub hello_answer : TweetRaw
hello_answer = record { tweets = hello ∷ []; includes = none }

abbrev pub hellos : Timeline
hellos = record {
  meta = some (record { result_count = 1; newest_id = "20" });
  raw = some (hello ∷ []);
}

abbrev pub twitter : TwitterClient World
twitter = record {
  get_user_tweets = λ id start w. (ok hellos, record w { requests = suc w.requests });
  get_tweets = λ ids w. (ok hello_answer, record w { requests = suc w.requests });
  get_user = λ name. pure (profile name);
  get_user_by_ids = λ ids. pure (profile "alice" ∷ []);
}

-- Twitter while timelines cannot be read
abbrev pub broken_twitter : TwitterClient World
broken_twitter = record twitter { get_user_tweets = λ id start. fail (message "suspended") }

abbrev pub row_named : String → List User → Result User
row_named name [] = err no_rows
row_named name (row ∷ rows) =
    let rest = row_named name rows in if str_eq row.username (to_lower name) then ok row else rest

abbrev pub row_of : CreateUserRequest → User
row_of request = record {
  username = to_lower request.username;
  id = request.id;
  private_key = request.private_key.bytes;
  created_at = request.created_at;
}

abbrev pub users : UserRepository World
users = record {
  get = λ name w. (row_named name w.rows, w);
  get_followers = λ user. pure (bob ∷ []);
  follow =
      λ user actor w. (ok tt, record w { followers = (user.username, actor.url) ∷ w.followers });
  un_follow = λ user actor w. (ok tt, record w { followers = [] });
  create_user = λ request w. (ok (row_of request), record w { rows = row_of request ∷ w.rows });
  get_with_followers = pure (some (alice ∷ []));
}

abbrev pub actors : ActorRepository World
actors = record { get = λ url. fail no_rows; create = λ url key. pure bob }

abbrev pub keys : KeyManager World
keys = record { generate_key = pure alice_key; fetch_key = λ id. pure bob_key }

abbrev pub tweets : TweetRepository World
tweets = record { get_tweet = λ id. fail (message "miss"); store = λ t. pure tt }

abbrev pub user_service : UserService World
user_service = record {
  get_full_user = λ name. fail no_rows;
  batch_create_users_from_ids = λ ids. pure (alice ∷ []);
  batch_create_users = λ names. pure tt;
}

-- The texts of the libraries' errors
abbrev pub texts : LibraryTexts
texts = record {
  no_rows_text = "sql: no rows in result set";
  redis_nil_text = "redis: nil";
  no_callback_match_text = "activity stream did not match the callback function";
  skip_retry_text = "skip retry for the task";
  error_response_text = λ code. "twitter";
  decimal = λ code. "code";
}
