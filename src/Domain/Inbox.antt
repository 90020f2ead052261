-- ===== src/Domain/Inbox.antt =====
-- internal/domain/inbox.go, with `GetActorURL` and `GetObjectURL` of internal/activitypub/vocab.go:
-- follow and unfollow requests. Logging is left out.
pub mod Laws
pub mod Frames
pub mod Unfollowing
pub mod Repeats
pub mod Named
pub mod Actors
use estrys.Common.{
  String, str_eq, Bool, true, false, not, if◌then◌else◌, Option, none, some, List, [], ◌∷◌, split,
  last_part,
}
use estrys.Outcome.{
  Error, Result, ok, err, panic, follow_mismatch_domain, user_does_not_exist, actor_not_allowed,
  unsupported_undo_object, wrap, with_stack, Action, pure, fail, crash, lift, wrapping, match_call,
  ◌>>=◌, ◌>>◌,
}
use estrys.Outcome.Errors.{is_no_rows}
use estrys.Models.{Url, User, Actor}
use estrys.Activity.{
  Property, Follow, Undo, UndoItem, follow_item, other_item, Serialized, text, structure,
  VocabLibrary,
}
use estrys.Ports.{Library, UserRepository, ActorRepository, KeyManager, InboxService}
use estrys.Authorization.{Voter, is_granted, subject_of, can_follow_attribute}
use estrys.Worker.Tasks.{WorkerClient, new_accept_follow_task, new_reject_follow_task}

-- `url.Parse(v.(string))`: the assertion panics where the property is not one text.
parse_text : Library → String → Serialized → Result Url
parse_text library failure (text link) = estrys.Outcome.wrap_result failure (library.parse_url link)
parse_text library failure structure = panic "interface conversion"

parse_serialized : Library → String → String → Result Serialized → Result Url
unfolding parse_text
parse_serialized library unread unparsed (ok v) = parse_text library unparsed v
parse_serialized library unread unparsed (err e) = err (wrap unread e)
parse_serialized library unread unparsed (panic why) = panic why

property_url : Library → VocabLibrary → String → String → Option Property → Result Url
unfolding parse_serialized
property_url library vocab unread unparsed none = panic "nil pointer dereference"
property_url library vocab unread unparsed (some property) =
    parse_serialized library unread unparsed (vocab.serialize_property property)

unfoldable pub get_actor_url : Library → VocabLibrary → Option Property → Result Url
unfolding property_url
get_actor_url library vocab =
    property_url library vocab "unable read activity streams actor field"
      "unable to parse actor as URL"

unfoldable pub get_object_url : Library → VocabLibrary → Option Property → Result Url
unfolding property_url
get_object_url library vocab =
    property_url library vocab "unable read activity streams object field"
      "unable to parse follow object as URL"

module _ {W : Type 0} (library : Library) (vocab : VocabLibrary) (actors : ActorRepository W)
    (users : UserRepository W) (keys : KeyManager W) (worker : WorkerClient W) (voters : List Voter)
    (domain : Url) (trace_id : String) where
  unfoldable pub get_user_from_url : Url → Action W User
  get_user_from_url url = users.get (last_part (split b'/' url.path))

  unfoldable pub followed_user : Url → Action W User
  followed_user url =
      match_call (get_user_from_url url) pure
        λ e. if is_no_rows e then fail (with_stack user_does_not_exist) else fail e

  unfoldable pub create_actor : Url → Action W Actor
  create_actor url = do
    key ← wrapping "unable to fetch actor key" (keys.fetch_key (library.url_string url))
    wrapping "unable to create actor" (actors.create url key)

  unfoldable pub create_actor_if_no_exist : Url → Action W Actor
  create_actor_if_no_exist url =
      match_call (actors.get url) pure λ e.
        if is_no_rows e then create_actor url else fail (wrap "unable to fetch actor from db" e)

  -- The answer to an actor that may not follow
  unfoldable pub reject : User → Follow → Action W (Unit {0})
  reject user follow = do
    task ←
        wrapping "unable to create reject follow task"
          (lift (new_reject_follow_task vocab trace_id user.username follow))
    wrapping "unable to schedule reject follow task" (worker.enqueue task)
    fail (with_stack actor_not_allowed)

  unfoldable pub accept : User → Actor → Follow → Action W (Unit {0})
  accept user actor follow = do
    wrapping "unable to follow actor" (users.follow user actor)
    task ←
        wrapping "unable to create accept follow task"
          (lift (new_accept_follow_task vocab trace_id user.username follow))
    wrapping "unable to schedule accept follow task" (worker.enqueue task)

  unfoldable pub answer : User → Actor → Follow → Bool → Action W (Unit {0})
  answer user actor follow granted =
      if granted then accept user actor follow else reject user follow

  -- `Follow` after the check of the domain
  unfoldable pub follow_on_domain : Follow → Url → Action W (Unit {0})
  follow_on_domain follow object_url = do
    user ← followed_user object_url
    actor_url ← wrapping "unable to get actor url" (lift (get_actor_url library vocab follow.actor))
    actor ← wrapping "unable to create actor" (create_actor_if_no_exist actor_url)
    granted ← lift (is_granted voters (subject_of follow.actor) can_follow_attribute)
    answer user actor follow granted

  unfoldable pub follow : Follow → Action W (Unit {0})
  follow act = do
    object_url ←
        wrapping "unable to get object url" (lift (get_object_url library vocab act.object))
    if str_eq object_url.host domain.host
        then follow_on_domain act object_url
        else fail (with_stack follow_mismatch_domain)

  unfoldable pub un_follow_user : Follow → Url → Action W (Unit {0})
  un_follow_user followed actor_url = do
    user_url ←
        wrapping "unable to get object URL" (lift (get_object_url library vocab followed.object))
    user ← get_user_from_url user_url
    actor ← wrapping "unable to create actor" (create_actor_if_no_exist actor_url)
    wrapping "unable to unfollow user" (users.un_follow user actor)

  -- `errors.Wrap` of the nil error, which is nil, for no object and for several; the length of an object
  -- property that is absent is a panic.
  unfoldable pub un_follow_object : Option (List UndoItem) → Url → Action W (Unit {0})
  un_follow_object none actor_url = crash "nil pointer dereference"
  un_follow_object (some (follow_item followed ∷ [])) actor_url = un_follow_user followed actor_url
  un_follow_object (some (other_item kind ∷ [])) actor_url =
      fail (with_stack (unsupported_undo_object kind))
  un_follow_object (some _) actor_url = pure tt

  unfoldable pub un_follow : Undo → Action W (Unit {0})
  un_follow act = do
    actor_url ← wrapping "unable to get actor url" (lift (get_actor_url library vocab act.actor))
    un_follow_object act.object actor_url

  unfoldable pub new_inbox_service : InboxService W
  new_inbox_service = record { follow = follow; un_follow = un_follow }
