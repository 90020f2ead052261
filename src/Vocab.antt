-- ===== src/Vocab.antt =====
-- internal/activitypub/vocab.go: the documents that the pages of a user show, and the activities that
-- the worker sends. The library's values are built in one step from the properties that the code
-- sets one after the other; their serialization and the resolver of types are parameters.
pub mod Laws
pub mod Delivery
pub mod Keys
use Prim.Native.String.{◌++◌ as cat}
use estrys.Common.{String, false, List, [], ◌∷◌, ◌++◌, map}
use estrys.Outcome.{Result, ok, err, message, wrap_result, Action}
use estrys.Outcome.Fallible.{◌>>=◌, ◌>>◌, or_nil}
use estrys.Models.{Url, PublicKey, User, FullUser, TweetMedia, Tweet, fields}
use estrys.Activity.{
  Follow, Activity, follow_activity, other_activity, Answer, Attachment, Note, Create, Message,
  accept, reject, create, Document, collection, service,
}
use estrys.Ports.{Library, UrlGenerator, VocabService}
use estrys.Urls.{
  user_route, user_following_route, user_followers_route, user_outbox_route, user_inbox_route,
  status_route,
}
use estrys.Web.{Pages}

-- `streams.Serialize`, and the JSON text of what it gives
pub record Serializer : Type 1 where
  pub Json : Type 0
  pub serialize : Document → Result Json
  pub encode : Json → Result String

-- `streams.NewTypeResolver` with a callback for a follow, which adds to a list of follows
pub record TypeResolver : Type 0 where
  pub new_type_resolver : Result (Unit {0})
  pub resolve :
      (Follow → Action (List Follow) (Unit {0})) → Activity → Action (List Follow) (Unit {0})

abbrev pub public_address : String
public_address = "https://www.w3.org/ns/activitystreams#Public"

abbrev pub attachment_media_type : String
attachment_media_type = "image/jpeg"

-- `object.AppendActivityStreamsFollow(follow)`
abbrev pub append_follow : Follow → Action (List Follow) (Unit {0})
append_follow act follows = (ok tt, follows ++ act ∷ [])

-- `act.GetTypeName()`
abbrev pub type_name : Activity → String
type_name (follow_activity act) = "Follow"
type_name (other_activity name) = name

-- The object of an answer, which may not be empty
unfoldable pub check_object : Activity → Result (Unit {0}) × List Follow → Result (List Follow)
check_object act (ok done, []) = err (message (cat "unsupported activity " (type_name act)))
check_object act (ok done, follow ∷ follows) = ok (follow ∷ follows)
check_object act (err e, follows) = err (estrys.Outcome.wrap "unable to resolve activity" e)
check_object act (Result.panic why, follows) = Result.panic why

abbrev pub attachment_of : TweetMedia → Attachment
attachment_of media = record { media_type = attachment_media_type; url = media.url }

module _ (library : Library) (urls : UrlGenerator) (serializer : Serializer)
    (resolver : TypeResolver) (format_pub_key : PublicKey → Result String) where
  unfoldable pub serialize : Document → Result serializer.Json
  serialize document = wrap_result "unable to serialize vocab" (serializer.serialize document)

  unfoldable pub get_followers : FullUser → Result serializer.Json
  get_followers user = do
    followers_url ←
        wrap_result "cannot generate followers URL"
          (urls.url user_followers_route ("username" ∷ user.username ∷ []))
    serialize (collection (record { id = followers_url; total_items = user.metrics.followers }))

  unfoldable pub get_following : FullUser → Result serializer.Json
  get_following user = do
    following_url ←
        wrap_result "cannot generate following URL"
          (urls.url user_following_route ("username" ∷ user.username ∷ []))
    serialize (collection (record { id = following_url; total_items = user.metrics.following }))

  unfoldable pub get_outbox : FullUser → Result serializer.Json
  get_outbox user = do
    outbox_url ←
        wrap_result "cannot generate outbox URL"
          (urls.url user_outbox_route ("username" ∷ user.username ∷ []))
    serialize (collection (record { id = outbox_url; total_items = user.metrics.tweets }))

  unfoldable pub get_actor : FullUser → Result serializer.Json
  get_actor user = do
    let params = "username" ∷ user.username ∷ []
    inbox_url ← wrap_result "cannot generate inbox URL" (urls.url user_inbox_route params)
    outbox_url ← wrap_result "cannot generate outbox URL" (urls.url user_outbox_route params)
    followers_url ← wrap_result "cannot generate outbox URL" (urls.url user_followers_route params)
    following_url ← wrap_result "cannot generate outbox URL" (urls.url user_following_route params)
    user_url ← wrap_result "cannot generate outbox URL" (urls.url user_route params)
    pem ← format_pub_key user.public_key
    serialize (
        service (record {
          id = user_url;
          inbox = inbox_url;
          outbox = outbox_url;
          followers = followers_url;
          following = following_url;
          preferred_username = user.username;
          name = user.name;
          summary = user.description;
          published = user.created_at;
          key_id = user_url;
          key_owner = user_url;
          key_pem = pem;
          icon = user.profile_image_url;
          discoverable = false;
        }))

  -- `GetAccept` and `GetReject` differ in the activity that they fill.
  unfoldable pub answer_of : User → Activity → Result Answer
  answer_of user act = do
    user_url ←
        wrap_result "cannot generate user URL"
          (urls.url user_route ("username" ∷ user.username ∷ []))
    wrap_result "unable to create type resolver" resolver.new_type_resolver
    follows ← check_object act (resolver.resolve append_follow act [])
    ok (record { id = user_url; actor = user_url; object = follows })

  unfoldable pub get_accept : User → Activity → Result Message
  get_accept user act = do answer ← answer_of user act; ok (accept answer)

  unfoldable pub get_reject : User → Activity → Result Message
  get_reject user act = do answer ← answer_of user act; ok (reject answer)

  unfoldable pub create_of : String → Tweet → Result Create
  create_of username t = do
    let params = "username" ∷ username ∷ []
    user_url ← wrap_result "cannot generate user URL" (urls.url user_route params)
    followers_url ←
        wrap_result "cannot generate followers URL" (urls.url user_followers_route params)
    status_url ←
        wrap_result "cannot generate status URL"
          (urls.url status_route ("username" ∷ username ∷ "id" ∷ (fields t).id ∷ []))
    let public_url = or_nil (library.parse_url public_address)
    let note : Note = record {
      id = status_url;
      attributed_to = user_url;
      cc = followers_url;
      to = public_url;
      content = (fields t).text;
      published = (fields t).published;
      sensitive = (fields t).sensitive;
      attachments = map attachment_of (fields t).medias;
    }
    ok (record {
      id = status_url;
      actor = user_url;
      cc = followers_url;
      to = public_url;
      published = (fields t).published;
      object = note;
    })

  unfoldable pub get_create_note_from_tweet : String → Tweet → Result Message
  get_create_note_from_tweet username t = do note ← create_of username t; ok (create note)

  unfoldable pub new_vocab_service : VocabService
  new_vocab_service = record {
    get_accept = λ user act. get_accept user (follow_activity act);
    get_reject = λ user act. get_reject user (follow_activity act);
    get_create_note_from_tweet = get_create_note_from_tweet;
  }

  -- The same service for the pages
  unfoldable pub new_vocab_pages : Pages
  new_vocab_pages = record {
    Document = serializer.Json;
    get_actor = get_actor;
    get_following = get_following;
    get_followers = get_followers;
    get_outbox = get_outbox;
    encode = serializer.encode;
  }
