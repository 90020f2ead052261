-- ===== src/Worker/Handlers/Delivery.antt =====
-- What a task that succeeds has done: the calls of its handler, in order.
use estrys.Common.{String, ◌≡◌, refl, sym, subst}
use estrys.Outcome.{Error, Result, ok, Action, crash, lift, ◌>>=◌}
use estrys.Outcome.Texts.{LibraryTexts}
use estrys.Outcome.Inversion.{bind_done, wrapped_done, lift_ok, replacing_ok}
use estrys.Models.{Url, User, Actor, Tweet}
use estrys.Activity.{Follow, Message, VocabLibrary}
use estrys.Ports.{
  Library, UserRepository, ActorRepository, TweetService, ActivityPubClient, VocabService,
}
use estrys.Worker.Tasks.{SendTweetInput, FollowInput, Payload}
use estrys.Worker.Handlers.{
  Decoder, skipping, stating, save_error, send_error, save_tweet, actor_of, send_note, send_saved,
  handle_send_tweet, answer_follow, handle_accept_follow, handle_reject_follow,
}
use estrys.Domain.Inbox.{get_actor_url}

module _ {W A B : Type 0} where
  skipped_done :
      (text : String) (m : Action W A) (f : A → Action W B) (w : W) {b : B} {v : W}
      → (skipping text m >>= f) w ≡ (ok b, v)
      → (a : A) × (u : W) × (m w ≡ (ok a, u)) × (f a u ≡ (ok b, v))
  unfolding skipping
  skipped_done text m f w h =
      let (a, u, first, rest) = bind_done _ f w h in (a, u, replacing_ok m _ w first, rest)

  skipped_lift :
      (text : String) (r : Result A) (f : A → Action W B) (w : W) {b : B} {v : W}
      → (skipping text (lift r) >>= f) w ≡ (ok b, v)
      → (a : A) × (r ≡ ok a) × (f a w ≡ (ok b, v))
  skipped_lift text r f w {b} {v} h =
      let (a, u, first, rest) = skipped_done text (lift r) f w h in
      let (is_a, same) = lift_ok r w first in
      (a, is_a, subst (λ x. f a x ≡ (ok b, v)) (sym same) rest)

  stated_lift :
      (texts : LibraryTexts) (text : String) (r : Result A) (f : A → Action W B) (w : W) {b : B}
      {v : W}
      → (stating texts text (lift r) >>= f) w ≡ (ok b, v)
      → (a : A) × (r ≡ ok a) × (f a w ≡ (ok b, v))
  unfolding stating
  stated_lift texts text r f w {b} {v} h =
      let (a, u, first, rest) = bind_done _ f w h in
      let (is_a, same) = lift_ok r w (replacing_ok (lift r) _ w first) in
      (a, is_a, subst (λ x. f a x ≡ (ok b, v)) (sym same) rest)

module _ {W : Type 0} (library : Library) (vocab : VocabLibrary) (decoder : Decoder)
    (service : VocabService) (users : UserRepository W) (actors : ActorRepository W)
    (tweets : TweetService W) (client : ActivityPubClient W) where
  -- The answer to the follow that a payload holds was built and posted, in the name of the user that is
  -- followed, to the actor that follows.
  pub record Answered (build : User → Follow → Result Message) (payload : Payload) (w u : W)
      : Type 0 where
    pub input : FollowInput
    pub is_input : decoder.follow_input payload ≡ ok input
    pub act : Follow
    pub is_act : decoder.resolve input.activity ≡ ok act
    pub user : User
    pub known : W
    pub is_user : users.get input.username w ≡ (ok user, known)
    pub url : Url
    pub is_url : get_actor_url library vocab act.actor ≡ ok url
    pub actor : Actor
    pub before : W
    pub is_actor : actors.get url known ≡ (ok actor, before)
    pub reply : Message
    pub is_reply : build user act ≡ ok reply
    pub is_posted : client.post_inbox actor user reply before ≡ (ok tt, u)

  answer_follow_ok :
      (text : String) (build : User → Follow → Result Message) (judge : Error → Error)
      (payload : Payload) (w u : W)
      → answer_follow library vocab decoder service users actors tweets client text build judge
          payload w
        ≡ (ok tt, u)
      → Answered build payload w u
  unfolding answer_follow
  answer_follow_ok text build judge payload w u h =
      let (input, is_input, rest1) = stated_lift _ _ _ _ w h in
      let (_, _, rest2) = stated_lift _ _ _ _ w rest1 in
      let (act, is_act, rest3) = stated_lift _ _ _ _ w rest2 in
      let (user, known, is_user, rest4) = wrapped_done _ _ _ w rest3 in
      let (url, is_url, rest5) = stated_lift _ _ _ _ known rest4 in
      let (actor, before, is_actor, rest6) = wrapped_done _ _ _ known rest5 in
      let (reply, is_reply, rest7) = stated_lift _ _ _ _ before rest6 in
      record {
        input = input;
        is_input = is_input;
        act = act;
        is_act = is_act;
        user = user;
        known = known;
        is_user = is_user;
        url = url;
        is_url = is_url;
        actor = actor;
        before = before;
        is_actor = is_actor;
        reply = reply;
        is_reply = is_reply;
        is_posted = replacing_ok _ judge before rest7;
      }

  pub handle_accept_follow_ok :
      (payload : Payload) (w u : W)
      → handle_accept_follow library vocab decoder service users actors tweets client payload w
        ≡ (ok tt, u)
      → Answered service.get_accept payload w u
  unfolding handle_accept_follow
  handle_accept_follow_ok payload w u h = answer_follow_ok _ _ _ payload w u h

  pub handle_reject_follow_ok :
      (payload : Payload) (w u : W)
      → handle_reject_follow library vocab decoder service users actors tweets client payload w
        ≡ (ok tt, u)
      → Answered service.get_reject payload w u
  unfolding handle_reject_follow
  handle_reject_follow_ok payload w u h = answer_follow_ok _ _ _ payload w u h

  -- The tweet of a payload was saved, and the activity that creates its note was posted, in the name
  -- of the user that it comes from, to the actor that it is for.
  pub record Delivered (payload : Payload) (w u : W) : Type 0 where
    pub input : SendTweetInput
    pub is_input : decoder.send_tweet_input payload ≡ ok input
    pub tweet : Tweet
    pub saved : W
    pub is_tweet : tweets.save_tweet_and_references input.tweet_id w ≡ (ok tweet, saved)
    pub user : User
    pub known : W
    pub is_user : users.get input.from saved ≡ (ok user, known)
    pub url : Url
    pub is_url : library.parse_url input.to ≡ ok url
    pub actor : Actor
    pub before : W
    pub is_actor : actors.get url known ≡ (ok actor, before)
    pub note : Message
    pub is_note : service.get_create_note_from_tweet user.username tweet ≡ ok note
    pub is_posted : client.post_inbox actor user note before ≡ (ok tt, u)

  actor_of_ok :
      (r : Result Url) (actor : Actor) (w u : W)
      → actor_of library vocab decoder service users actors tweets client r w ≡ (ok actor, u)
      → (url : Url) × (r ≡ ok url) × (actors.get url w ≡ (ok actor, u))
  unfolding actor_of crash
  actor_of_ok (ok url) actor w u h = (url, refl, h)
  actor_of_ok (Result.err e) actor w u h = cc h
  actor_of_ok (Result.panic why) actor w u h = cc h

  pub handle_send_tweet_ok :
      (payload : Payload) (w u : W)
      → handle_send_tweet library vocab decoder service users actors tweets client payload w
        ≡ (ok tt, u)
      → Delivered payload w u
  unfolding handle_send_tweet send_saved save_tweet send_note
  handle_send_tweet_ok payload w u h =
      let (input, is_input, rest1) = skipped_lift _ _ _ w h in
      let (tweet, saved, first, rest2) = bind_done _ _ w rest1 in
      let (user, known, is_user, rest3) = skipped_done _ _ _ saved rest2 in
      let (actor, before, reached, rest4) = skipped_done _ _ _ known rest3 in
      let (url, is_url, is_actor) = actor_of_ok _ actor known before reached in
      let (note, is_note, rest5) = skipped_lift _ _ _ before rest4 in
      record {
        input = input;
        is_input = is_input;
        tweet = tweet;
        saved = saved;
        is_tweet = replacing_ok _ save_error w first;
        user = user;
        known = known;
        is_user = is_user;
        url = url;
        is_url = is_url;
        actor = actor;
        before = before;
        is_actor = is_actor;
        note = note;
        is_note = is_note;
        is_posted = replacing_ok _ send_error before rest5;
      }
