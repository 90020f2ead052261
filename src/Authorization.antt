-- ===== src/Authorization.antt =====
-- internal/authorization: the access decision manager, and the voter that lets the configured
-- accounts follow. A dereference of a nil link is a panic.
pub mod Laws
use Prim.Native.String.{◌++◌ as cat}
use estrys.Common.{
  ℕ, ◌==◌, String, Bool, true, false, if◌then◌else◌, Option, none, some, List, [], ◌∷◌, split,
  last_part, has_suffix,
}
use estrys.Outcome.{Result, ok, err, panic, message}
use estrys.Models.{Url}
use estrys.Activity.{Item, iri, embedded, Property}
use estrys.Ports.{Library}

-- `attributes.Attribute`
abbrev pub Attribute : Type 0
Attribute = ℕ

abbrev pub can_follow_attribute : Attribute
can_follow_attribute = 0

pub data Decision : Type 0 where
  access_denied access_granted : Decision

-- The value of type `any` that is voted on
pub data Subject : Type 0 where
  actor_property : Property → Subject
  other_subject : Subject

abbrev pub subject_of : Option Property → Subject
subject_of none = other_subject
subject_of (some actor) = actor_property actor

pub record Voter : Type 0 where
  pub supports : Subject → Bool
  pub vote : Subject → Attribute → Result Decision

abbrev is_granted_decision : Decision → Bool
is_granted_decision access_denied = false
is_granted_decision access_granted = true

-- `AuthorizationChecker.IsGranted`
unfoldable pub is_granted : List Voter → Subject → Attribute → Result Bool
is_granted [] subject attr = ok false
is_granted (voter ∷ voters) subject attr =
    let rest = is_granted voters subject attr in
    let voted : Result Bool = elim (voter.vote subject attr) [
      | ok d ↦ (if is_granted_decision d then ok true else rest)
      | err e ↦ err e
      | panic why ↦ panic why
    ] in
    if voter.supports subject then voted else rest

-- The fediverse name of a link: the last part of its path, and its host
unfoldable pub username_of : Library → Url → String
username_of library url =
    cat "@" (cat (last_part (split b'/' url.path)) (cat "@" (library.hostname url)))

has_two_parts : List String → Bool
has_two_parts [] = false
has_two_parts (p ∷ []) = false
has_two_parts (p ∷ q ∷ ps) = true

unfoldable pub url_to_username : Library → Url → Result String
unfolding has_two_parts
url_to_username library url =
    if has_two_parts (split b'/' url.path)
    then ok (username_of library url)
    else err (message "unable to find an username in the path")

unfoldable pub any_allowed : String → List String → Decision
any_allowed username [] = access_denied
any_allowed username (allowed ∷ users) =
    let rest = any_allowed username users in
    if has_suffix username allowed then access_granted else rest

abbrev decide : List String → Result String → Result Decision
decide allowed_users (ok username) = ok (any_allowed username allowed_users)
decide allowed_users (err e) = ok access_denied
decide allowed_users (panic why) = panic why

-- `canFollow`
unfoldable pub can_follow : Library → List String → Property → Result Decision
can_follow library allowed_users (iri url ∷ []) = decide allowed_users (url_to_username library url)
can_follow library allowed_users (embedded kind ∷ []) = panic "nil pointer dereference"
can_follow library allowed_users _ = ok access_denied

unfoldable pub supports_activity : Subject → Bool
supports_activity (actor_property actor) = true
supports_activity other_subject = false

unfoldable pub vote_activity : Library → List String → Subject → Attribute → Result Decision
vote_activity library allowed_users (actor_property actor) attr =
    if attr == can_follow_attribute
    then can_follow library allowed_users actor
    else ok access_denied
vote_activity library allowed_users other_subject attr =
    if attr == can_follow_attribute then panic "nil pointer dereference" else ok access_denied

unfoldable pub new_activity_voter : Library → List String → Voter
new_activity_voter library allowed_users = record {
  supports = supports_activity;
  vote = vote_activity library allowed_users;
}
