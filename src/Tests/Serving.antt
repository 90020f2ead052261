-- ===== src/Tests/Serving.antt =====
-- Requests to the server, on concrete services.
use estrys.Outcome.{no_rows}
use estrys.Web.{written, refused, internal_error}
use estrys.Common.{
  none, split, to_lower, str_eq, if◌then◌else◌, String, true, false, [], ◌∷◌, none, some, ◌≡◌, refl,
}
use estrys.Outcome.{ok, no_rows, actor_not_allowed, with_stack, pure, fail, crash, lift, match_call}
use estrys.Outcome.Errors.{as_user_not_found, is_user_does_not_exist, is_actor_not_allowed}
use estrys.Activity.{iri, Follow}
use estrys.Ports.{UserService, TweetRepository, InboxService}
use estrys.Web.{
  JsonResolver, Pages, respond, new_error, wrap_error, with_user_message, skip_capture,
  lookup_error, inbox_user_error, activity_error, or_refuse, http_error_handler, handle_page,
  handle_user, handle_signed, handle_inbox,
}
use estrys.Models.{FullUser, Tweet, tweet, nil, fields, is_authored_by, first_retweet, retweet}
use estrys.Web.Finger.{
  find, find_address, find_resource, handle_web_finger, Found, handle_web_finger_written,
}
use estrys.Web.Status.{
  StatusPage, Execution, executed, render, render_retweet, show, show_found, fetch, handle_status,
  handle_status_written,
}
use estrys.Tests.Services.{
  World, metrics, bob_key, alice_url, bob_url, with_alice, twitter, user_service,
}

unfoldable pub serving : Unit {0}
unfolding pure fail crash lift match_call as_user_not_found is_user_does_not_exist
    is_actor_not_allowed respond new_error wrap_error with_user_message skip_capture lookup_error
    inbox_user_error activity_error or_refuse http_error_handler handle_page handle_user
    handle_signed handle_inbox
serving = tt

abbrev request : Follow
request = record { actor = some (iri bob_url ∷ []); object = some (iri alice_url ∷ []) }

abbrev pub inbox : InboxService World
inbox = record { follow = λ act. pure tt; un_follow = λ act. fail no_rows }

abbrev denying : InboxService World
denying = record { follow = λ act. fail (with_stack actor_not_allowed); un_follow = λ act. pure tt }

abbrev pub resolver : JsonResolver World
resolver = record {
  Json = Follow;
  new_json_resolver = ok tt;
  decode = λ body. ok request;
  resolve = λ follow undo delete json. follow json;
}

abbrev pub pages : Pages
pages = record {
  Document = String;
  get_actor = λ user. ok user.name;
  get_following = λ user. ok "";
  get_followers = λ user. ok "";
  get_outbox = λ user. ok "";
  encode = λ s. ok s;
}

-- A denied follow is forbidden, an unsigned request too, and a panic is an error of the server.
status_tests :
    ((http_error_handler true
        (handle_inbox twitter denying resolver true "alice" "follow")
        with_alice).0
      ≡ ok (record { status = 403; error = some "not allowed to follow this user"; body = "" }))
    × ((http_error_handler true
          (handle_inbox twitter inbox resolver false "alice" "follow")
          with_alice).0
        ≡ ok (record { status = 403; error = none; body = "" }))
    × ((http_error_handler true (handle_user user_service pages "ada") with_alice).0
        ≡ ok (record { status = 500; error = none; body = "" }))
    × ((http_error_handler true (crash "nil") with_alice).0
        ≡ ok (record { status = 500; error = none; body = "" }))
unfolding serving
status_tests = (refl, refl, refl, refl)

abbrev full_alice : FullUser
full_alice = record {
  name = "Alice";
  username = "alice";
  description = "";
  profile_image_url = alice_url;
  created_at = 7;
  metrics = metrics;
  public_key = bob_key;
}

abbrev full_users : UserService World
full_users = record user_service { get_full_user = λ name. pure full_alice }

abbrev alices : Tweet
alices =
    tweet
      (record {
        id = "20";
        author_id = "1";
        author_username = "alice";
        referenced_type = "";
        text = "hello";
        published = 7;
        sensitive = false;
        medias = [];
      })
      nil

abbrev known_tweets : TweetRepository World
known_tweets = record {
  get_tweet = λ id. pure (if str_eq id "20" then some alices else none);
  store = λ t. pure tt;
}

pages_shown : Unit {0}
unfolding is_authored_by to_lower first_retweet retweet executed render render_retweet show
    show_found fetch handle_status split find find_address find_resource handle_web_finger
pages_shown = tt

abbrev shown : StatusPage → Execution
shown page = ((fields page.tweet).text, none)

-- A page that fails after some text keeps its status 200; one that fails at once is refused.
executed_tests :
    (executed ("<html>", some no_rows) ≡ written 200 "<html>")
    × (executed ("", some no_rows) ≡ refused (internal_error no_rows))
unfolding executed
executed_tests = (refl, refl)

-- A tweet that is not stored ends in a panic, which is answered as an error of the server.
handle_status_tests :
    ((http_error_handler true
        (handle_status known_tweets full_users (λ name id. ok alice_url) shown "alice" "21")
        with_alice).0
      ≡ ok (record { status = 500; error = none; body = "" }))
    × ((http_error_handler true
          (handle_status known_tweets full_users (λ name id. ok alice_url) shown "bob" "20")
          with_alice).0
        ≡ ok (record { status = 400; error = some "tweet not found for this user"; body = "" }))
unfolding serving pages_shown
handle_status_tests = (refl, refl)

handle_status_written_example :
    (t : Tweet) × (v : World) × (known_tweets.get_tweet "20" with_alice ≡ (ok (some t), v))
    × (is_authored_by t "Alice" ≡ true)
unfolding serving pages_shown
handle_status_written_example =
    handle_status_written known_tweets full_users (λ name id. ok alice_url) shown "Alice" "20"
      "hello" with_alice with_alice refl

handle_web_finger_written_example :
    (scheme address username : String) × (split b':' "acct:alice@here" ≡ scheme ∷ address ∷ [])
    × (split b'@' address ≡ username ∷ "here" ∷ [])
    × Found full_users "here" (λ user. user.name) username "Alice" with_alice with_alice
unfolding serving pages_shown
handle_web_finger_written_example =
    handle_web_finger_written full_users "here" (λ user. user.name) "acct:alice@here" "Alice"
      with_alice with_alice refl
