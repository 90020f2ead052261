-- ===== src/Tests/Sending.antt =====
-- The worker's tasks with the program's own activities and client, on concrete services.
use estrys.Common.{String, String, false, none, List, [], ◌∷◌, ◌≡◌, refl, to_lower, replace_all}
use estrys.Outcome.{
  Result, ok, err, no_callback_match, Action, pure, fail, lift, wrapping, match_call, ◌>>=◌,
}
use estrys.Models.{PublicKey, FullUser, Tweet, tweet, nil}
use estrys.Activity.{
  Follow, Activity, follow_activity, other_activity, Answer, accept, Document, Service, service,
  collection,
}
use estrys.Ports.{TweetService, VocabService, ActivityPubClient}
use estrys.Worker.Tasks.{answer_follow}
use estrys.Worker.Handlers.{
  skipping, stating, accept_error, send_error, save_error, save_tweet, actor_of, send_note,
  handle_accept_follow, send_saved, handle_send_tweet,
}
use estrys.Worker.Handlers.Delivery.{Answered}
use estrys.Domain.Inbox.{get_actor_url}
use estrys.Federation.{
  Request, inbox_request, new_activity_pub_client, sign_and_send, round_trip, check_status,
  post_inbox,
}
use estrys.Federation.Laws.{Posted}
use estrys.Urls.{with_options, url, new_url_generator}
use estrys.Vocab.{
  Serializer, TypeResolver, check_object, answer_of, get_accept, create_of,
  get_create_note_from_tweet, serialize, get_actor, get_followers, new_vocab_service,
}
use estrys.Vocab.Laws.{IsResolver, IsAnswer}
use estrys.Vocab.Delivery.{IsHttpClient, handle_accept_follow-Answered}
use estrys.Vocab.Keys.{get_actor-key_id}
use estrys.Domain.Users.{with_metrics, with_profile, get_full_user}
use estrys.Models.{PrivateKey}
use estrys.Tests.Services.{
  keys, twitter, World, alice, alice_url, bob_url, with_alice, parser, printer, users, urls,
  metrics, bob_key,
}
use estrys.Tests.Working.{decoder, http, known_actors, request, reply}

abbrev resolved :
    (Follow → Action (List Follow) (Unit {0})) → Activity → Action (List Follow) (Unit {0})
resolved callback (follow_activity act) follows = callback act follows
resolved callback (other_activity name) follows = (err no_callback_match, follows)

abbrev pub resolver : TypeResolver
resolver = record { new_type_resolver = ok tt; resolve = resolved }

abbrev pub serializer : Serializer
serializer = record { Json = Document; serialize = λ d. ok d; encode = λ d. ok "json" }

abbrev pub pem : PublicKey → Result String
pem key = ok key.bytes

pub resolver-IsResolver : IsResolver resolver
resolver-IsResolver = record { resolve_follow = λ callback act follows. refl }

pub http-IsHttpClient : IsHttpClient http
http-IsHttpClient = record { answers = λ send request status before after h. h }

abbrev hello : Tweet
hello =
    tweet
      (record {
        id = "20";
        author_id = "1";
        author_username = "alice";
        referenced_type = "";
        text = "hello";
        published = 7;
        sensitive = false;
        medias = record { kind = "photo"; url = none; width = 1; height = 1 } ∷ [];
      })
      nil

abbrev pub saving : TweetService World
saving = record { save_tweet_and_references = λ id. pure hello }

unfoldable pub sending : Unit {0}
unfolding pure fail lift wrapping match_call ◌>>=◌ estrys.Outcome.Fallible.◌>>=◌ skipping stating
    accept_error send_error save_error save_tweet actor_of send_note
    estrys.Worker.Handlers.answer_follow handle_accept_follow send_saved handle_send_tweet
    get_actor_url sign_and_send round_trip check_status post_inbox new_activity_pub_client
    with_options url new_url_generator check_object answer_of get_accept create_of
    get_create_note_from_tweet serialize get_actor get_followers new_vocab_service to_lower
sending = tt

abbrev activities : VocabService
activities = new_vocab_service parser urls serializer resolver pem

abbrev posting : ActivityPubClient World
posting = new_activity_pub_client parser printer urls http "now"

-- A follow is accepted in the name of the user, and any other activity is not answered.
answers_tests :
    (get_accept parser urls serializer resolver pem alice (follow_activity request)
      ≡ ok (accept (record { id = alice_url; actor = alice_url; object = request ∷ [] })))
    × (get_accept parser urls serializer resolver pem alice (other_activity "Like")
        ≡ err (estrys.Outcome.wrap "unable to resolve activity" no_callback_match))
unfolding sending
answers_tests = (refl, refl)

handle_accept_follow-Answered_example :
    (a : Answered parser printer decoder activities users known_actors saving posting
      activities.get_accept
      (answer_follow reply)
      with_alice
      with_alice)
    × (answer : Answer) × IsAnswer parser urls serializer resolver pem a.user.username a.act answer
    × Posted parser printer urls http "now" a.actor a.user (accept answer) a.before with_alice
unfolding sending
handle_accept_follow-Answered_example =
    handle_accept_follow-Answered parser printer decoder urls serializer resolver pem users
      known_actors saving http "now" http-IsHttpClient resolver-IsResolver (answer_follow reply)
      with_alice with_alice refl

-- The user that is shown for the row of alice
abbrev full_alice : FullUser
full_alice = record {
  name = "Someone";
  username = "alice";
  description = "";
  profile_image_url = alice_url;
  created_at = 7;
  metrics = metrics;
  public_key = bob_key;
}

abbrev alice_service : Service
alice_service = record {
  id = alice_url;
  inbox = alice_url;
  outbox = alice_url;
  followers = alice_url;
  following = alice_url;
  preferred_username = "alice";
  name = "Someone";
  summary = "";
  published = 7;
  key_id = alice_url;
  key_owner = alice_url;
  key_pem = "p";
  icon = alice_url;
  discoverable = false;
}

abbrev post : Request
post = inbox_request parser printer urls http "now" bob_url alice "act"

-- The pages of a user
pages_tests :
    (get_actor parser urls serializer resolver pem full_alice ≡ ok (service alice_service))
    × (get_followers parser urls serializer resolver pem full_alice
        ≡ ok (collection (record { id = alice_url; total_items = 1 })))
unfolding sending
pages_tests = (refl, refl)

get_actor-key_id_example :
    (s : Service) × (key : PrivateKey) × (signature : String) × (serializer.serialize (service s)
      ≡ ok (service alice_service))
    × (pem key.public_key ≡ ok s.key_pem)
    × (s.key_owner ≡ s.key_id)
    × (http.sign key (parser.url_string s.key_id) post ≡ ok signature)
    × (http.transport post signature with_alice ≡ (ok 202, with_alice))
unfolding sending get_full_user with_profile with_metrics replace_all
get_actor-key_id_example =
    get_actor-key_id parser urls serializer resolver pem printer users keys twitter http "now"
      "alice" alice full_alice (service alice_service) with_alice with_alice with_alice post 202
      with_alice with_alice refl refl refl refl
