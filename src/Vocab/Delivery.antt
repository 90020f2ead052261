-- ===== src/Vocab/Delivery.antt =====
-- The tasks of the worker with the program's own activities and its own client: what was posted.
use estrys.Common.{ℕ, String, ◌≡◌, subst}
use estrys.Outcome.{Result, ok, Action}
use estrys.Models.{PublicKey, User, Actor}
use estrys.Activity.{Message, Answer, Create, VocabLibrary, accept, reject, create}
use estrys.Ports.{
  Library, UrlGenerator, UserRepository, ActorRepository, TweetService, VocabService,
  ActivityPubClient,
}
use estrys.Worker.Tasks.{Payload}
use estrys.Worker.Handlers.{Decoder, handle_accept_follow, handle_reject_follow, handle_send_tweet}
use estrys.Worker.Handlers.Delivery.{
  Answered, Delivered, handle_accept_follow_ok, handle_reject_follow_ok, handle_send_tweet_ok,
}
use estrys.Federation.{Request, HttpLibrary, new_activity_pub_client}
use estrys.Federation.Laws.{Posted, post_inbox_success}
use estrys.Vocab.{Serializer, TypeResolver, new_vocab_service}
use estrys.Vocab.Laws.{
  IsResolver, IsAnswer, IsCreate, get_accept_ok, get_reject_ok, get_create_note_from_tweet_ok,
}

-- The HTTP client answers a request with what its round tripper answers to it.
pub record IsHttpClient {W : Type 0} (http : HttpLibrary W) : Type 0 where
  pub answers :
      (send : Request → Action W ℕ) (request : Request) (status : ℕ) (before after : W)
      → http.client_do send request before ≡ (ok status, after)
      → send request before ≡ (ok status, after)

module _ {W : Type 0} (library : Library) (vocab : VocabLibrary) (decoder : Decoder)
    (urls : UrlGenerator) (serializer : Serializer) (resolver : TypeResolver)
    (format_pub_key : PublicKey → Result String) (users : UserRepository W)
    (actors : ActorRepository W) (tweets : TweetService W) (http : HttpLibrary W) (now : String)
    (client : IsHttpClient http) (is : IsResolver resolver) where
  abbrev service : VocabService
  service = new_vocab_service library urls serializer resolver format_pub_key

  abbrev poster : ActivityPubClient W
  poster = new_activity_pub_client library vocab urls http now

  Posted-as :
      (to : Actor) (from : User) (m act : Message) (w u : W)
      → m ≡ act
      → poster.post_inbox to from m w ≡ (ok tt, u)
      → Posted library vocab urls http now to from act w u
  unfolding new_activity_pub_client
  Posted-as to from m act w u same h =
      subst (λ x. Posted library vocab urls http now to from x w u) same
        (post_inbox_success library vocab urls http now to from m w u client.answers h)

  -- Where the resolver calls back for a follow, and the HTTP client answers with what its round tripper
  -- answers, a task that accepts a follow succeeds only when the acceptance of exactly that follow, in
  -- the name of the user that is followed, was signed, sent to the actor that follows, and accepted by
  -- its server.
  pub handle_accept_follow-Answered :
      (payload : Payload) (w u : W)
      → handle_accept_follow library vocab decoder service users actors tweets poster payload w
        ≡ (ok tt, u)
      → (a : Answered library vocab decoder service users actors tweets poster service.get_accept
          payload w u)
        × (answer : Answer) × IsAnswer library urls serializer resolver format_pub_key
            a.user.username a.act answer
        × Posted library vocab urls http now a.actor a.user (accept answer) a.before u
  unfolding new_vocab_service new_activity_pub_client
  handle_accept_follow-Answered payload w u h =
      let a = handle_accept_follow_ok _ _ _ _ _ _ _ _ payload w u h in
      let (answer, same, is_answer) = get_accept_ok _ _ _ _ _ is a.user a.act a.reply a.is_reply in
      (
        a,
        answer,
        is_answer,
        Posted-as a.actor a.user a.reply (accept answer) a.before u same a.is_posted,
      )

  -- Under the same conditions, a task that rejects a follow succeeds only when the rejection of exactly
  -- that follow, in the name of the user that is followed, was signed, sent to the actor that follows,
  -- and accepted by its server.
  pub handle_reject_follow-Answered :
      (payload : Payload) (w u : W)
      → handle_reject_follow library vocab decoder service users actors tweets poster payload w
        ≡ (ok tt, u)
      → (a : Answered library vocab decoder service users actors tweets poster service.get_reject
          payload w u)
        × (answer : Answer) × IsAnswer library urls serializer resolver format_pub_key
            a.user.username a.act answer
        × Posted library vocab urls http now a.actor a.user (reject answer) a.before u
  unfolding new_vocab_service new_activity_pub_client
  handle_reject_follow-Answered payload w u h =
      let a = handle_reject_follow_ok _ _ _ _ _ _ _ _ payload w u h in
      let (answer, same, is_answer) = get_reject_ok _ _ _ _ _ is a.user a.act a.reply a.is_reply in
      (
        a,
        answer,
        is_answer,
        Posted-as a.actor a.user a.reply (reject answer) a.before u same a.is_posted,
      )

  -- Where the HTTP client answers with what its round tripper answers, a task that sends a tweet
  -- succeeds only when the tweet was saved, and the activity that creates its note, in the name of the
  -- user that it comes from, was signed, sent to the follower, and accepted by its server.
  pub handle_send_tweet-Delivered :
      (payload : Payload) (w u : W)
      → handle_send_tweet library vocab decoder service users actors tweets poster payload w
        ≡ (ok tt, u)
      → (d : Delivered library vocab decoder service users actors tweets poster payload w u)
        × (c : Create) × IsCreate library urls serializer resolver format_pub_key d.user.username
            d.tweet c
        × Posted library vocab urls http now d.actor d.user (create c) d.before u
  unfolding new_vocab_service new_activity_pub_client
  handle_send_tweet-Delivered payload w u h =
      let d = handle_send_tweet_ok _ _ _ _ _ _ _ _ payload w u h in
      let (c, same, is_create) =
        get_create_note_from_tweet_ok _ _ _ _ _ d.user.username d.tweet d.note d.is_note in
      (d, c, is_create, Posted-as d.actor d.user d.note (create c) d.before u same d.is_posted)
