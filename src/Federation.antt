-- ===== src/Federation.antt =====
-- internal/activitypub/client/client.go: activities are posted to the inbox of an actor, signed with
-- the key of the user that they come from. The HTTP library is a parameter; logging and the lock
-- around the signer are left out, and the context of a request holds its user.
pub mod Laws
use estrys.Common.{ℕ, ◌==◌, String, if◌then◌else◌, Option, none, some, [], ◌∷◌}
use estrys.Outcome.{
  Error, Result, ok, err, panic, wrap, message, inbox_not_accepted, Action, pure, fail, lift,
  wrapping, ◌>>=◌, ◌>>◌,
}
use estrys.Models.{Url, PrivateKey, User, Actor}
use estrys.Activity.{Message, VocabLibrary}
use estrys.Ports.{Library, UrlGenerator, ActivityPubClient}
use estrys.Urls.{user_route}

pub record Request : Type 0 where
  pub url : String
  -- `contextActivity`
  pub user : Option User
  pub date : String
  pub host : String
  pub content_type : String
  pub body : String

-- The libraries `net/url`, `net/http` and `httpsig`.
-- `client_do` is `http.Client.Do`, which calls the round tripper of the client.
pub record HttpLibrary (W : Type 0) : Type 0 where
  pub join_path : String → String → String
  pub check_request : String → Result (Unit {0})
  pub sign : PrivateKey → String → Request → Result String
  pub transport : Request → String → Action W ℕ
  pub client_do : (Request → Action W ℕ) → Request → Action W ℕ

abbrev pub status_accepted : ℕ
status_accepted = 202

module _ {W : Type 0} (library : Library) (vocab : VocabLibrary) (urls : UrlGenerator)
    (http : HttpLibrary W) (now : String) where
  -- `RoundTrip` for a request whose context names a user
  unfoldable pub sign_and_send : Request → User → Action W ℕ
  sign_and_send request user = do
    key ←
        wrapping "unable to parse user private key"
          (lift (library.parse_private_key user.private_key))
    key_id ←
        wrapping "unable to generate user route"
          (lift (urls.url user_route ("username" ∷ user.username ∷ [])))
    signature ←
        wrapping "unable to sign http request"
          (lift (http.sign key (library.url_string key_id) request))
    http.transport request signature

  unfoldable pub round_trip : Request → Action W ℕ
  round_trip request = elim request.user [
    | none ↦ fail (message "no context set for the request")
    | some user ↦ sign_and_send request user
  ]

  abbrev pub inbox_request : Url → User → String → Request
  inbox_request actor_url user body = record {
    url = http.join_path (library.url_string actor_url) "/inbox";
    user = some user;
    date = now;
    host = actor_url.host;
    content_type = "application/activity+json";
    body = body;
  }

  -- The answer's status
  unfoldable pub check_status : ℕ → Action W (Unit {0})
  check_status status =
      if status == status_accepted then pure tt else fail (inbox_not_accepted status)

  unfoldable pub post_inbox : Actor → User → Message → Action W (Unit {0})
  post_inbox to from act = do
    actor_url ← wrapping "unable to decode actor url" (lift (library.parse_url to.url))
    serialized ← wrapping "unable to serialize activity" (lift (vocab.serialize_message act))
    body ← wrapping "unable to encode serialized activity" (lift (vocab.encode_message serialized))
    let request = inbox_request actor_url from body
    wrapping "unable to create inbox request" (lift (http.check_request request.url))
    status ← wrapping "unable to perform post to inbox request" (http.client_do round_trip request)
    check_status status

  unfoldable pub new_activity_pub_client : ActivityPubClient W
  new_activity_pub_client = record { post_inbox = post_inbox }

  -- `NewActivityPubClient`, for what `httpsig.NewSigner` gives
  unfoldable pub activity_pub_client_of : Result (Unit {0}) → Result (ActivityPubClient W)
  unfolding new_activity_pub_client
  activity_pub_client_of (ok signer) = ok new_activity_pub_client
  activity_pub_client_of (err e) = err (wrap "unable to create an http request signer" e)
  activity_pub_client_of (panic why) = panic why
