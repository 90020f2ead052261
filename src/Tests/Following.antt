-- ===== src/Tests/Following.antt =====
-- Follow requests on concrete services.
use estrys.Common.{
  List, [], ◌∷◌, ◌≡◌, ◌↔◌, refl, true, split, last_part, to_lower, has_suffix, some, str_eq,
  if◌then◌else◌,
}
use estrys.Outcome.{ok, pure, fail, lift, wrapping, match_call, ◌>>=◌}
use estrys.Outcome.Errors.{is_no_rows}
use estrys.Models.{Url}
use estrys.Activity.{iri, Follow, Undo, follow_item}
use estrys.Authorization.{
  Voter, new_activity_voter, is_granted, can_follow_attribute, subject_of, actor_property,
  username_of, url_to_username, any_allowed, can_follow, supports_activity, vote_activity,
}
use estrys.Authorization.Laws.{MayFollow, is_granted_iff}
use estrys.Worker.Tasks.{new_accept_follow_task, new_reject_follow_task}
use estrys.Domain.Inbox.{
  get_object_url, get_actor_url, get_user_from_url, followed_user, create_actor,
  create_actor_if_no_exist, reject, accept, answer, follow_on_domain, follow, un_follow_object,
  un_follow, un_follow_user,
}
use estrys.Domain.Inbox.Unfollowing.{Unfollowed, un_follow_success, un_follow_same_path}
use estrys.Ports.{Library}
use estrys.Domain.Inbox.Laws.{Accepted, follow_success}
use estrys.Tests.Services.{
  World, with_alice, alice_url, bob_url, parser, printer, worker, users, actors, keys,
}

unfoldable pub granting : Unit {0}
unfolding is_granted new_activity_voter username_of url_to_username any_allowed can_follow
    supports_activity vote_activity split last_part has_suffix
granting = tt

unfoldable pub following : Unit {0}
unfolding pure fail lift wrapping match_call ◌>>=◌ is_no_rows get_object_url get_actor_url
    get_user_from_url followed_user create_actor create_actor_if_no_exist reject accept answer
    follow_on_domain follow un_follow_object un_follow new_accept_follow_task new_reject_follow_task
    to_lower
following = tt

abbrev pub allowed : List Voter
allowed = new_activity_voter parser ("@bob@far" ∷ []) ∷ []

abbrev pub request : Follow
request = record { actor = some (iri bob_url ∷ []); object = some (iri alice_url ∷ []) }

abbrev pub followed : World
followed =
    (follow parser printer actors users keys worker allowed alice_url "t" request with_alice).1

-- A request that is granted writes the follower; one that is not does not.
follow_tests :
    (followed.followers ≡ ("alice", "https://far/users/bob") ∷ [])
    × ((follow parser printer actors users keys worker [] alice_url "t" request
          with_alice).1.followers
        ≡ [])
unfolding granting following
follow_tests = (refl, refl)

follow_success_example :
    (url : Url) × (get_object_url parser printer request.object ≡ ok url)
    × (url.host ≡ "here")
    × (is_granted allowed (subject_of request.actor) can_follow_attribute ≡ ok true)
    × Accepted parser printer actors users keys worker allowed alice_url "t" request url with_alice
        followed
unfolding granting following
follow_success_example =
    follow_success parser printer actors users keys worker allowed alice_url "t" request with_alice
      followed refl

is_granted_iff_example :
    (is_granted allowed (actor_property (iri bob_url ∷ [])) can_follow_attribute ≡ ok true) ↔ (
      (url : Url) × (actor_property (iri bob_url ∷ []) ≡ actor_property (iri url ∷ []))
      × MayFollow parser ("@bob@far" ∷ []) url)
is_granted_iff_example = is_granted_iff parser ("@bob@far" ∷ []) (actor_property (iri bob_url ∷ []))

-- With the entry of one account, an account of that instance with a longer name may follow too.
suffix_tests :
    is_granted
      (new_activity_voter parser ("bob@far" ∷ []) ∷ [])
      (actor_property
        (iri (record { scheme = "https"; host = "far"; path = "/users/notbob" }) ∷ []))
      can_follow_attribute
    ≡ ok true
unfolding granting
suffix_tests = refl

abbrev undo_follow : Undo
undo_follow = record { actor = some (iri bob_url ∷ []); object = some (follow_item request ∷ []) }

un_follow_success_example :
    Unfollowed parser printer actors users keys worker allowed alice_url "t" undo_follow request
      with_alice with_alice
unfolding following un_follow_user last_part split
un_follow_success_example =
    un_follow_success parser printer actors users keys worker allowed alice_url "t" undo_follow
      request with_alice with_alice refl refl

-- The URL of a user of the same name on another instance
abbrev far_alice : Url
far_alice = record { scheme = "https"; host = "far"; path = "/users/alice" }

abbrev wide_parser : Library
wide_parser = record parser {
  parse_url = λ s. if str_eq s "https://far/users/alice" then ok far_alice else parser.parse_url s;
}

abbrev far_request : Follow
far_request = record { actor = some (iri bob_url ∷ []); object = some (iri far_alice ∷ []) }

abbrev far_undo : Undo
far_undo = record { actor = some (iri bob_url ∷ []); object = some (follow_item far_request ∷ []) }

un_follow_same_path_example :
    un_follow wide_parser printer actors users keys worker allowed alice_url "t" far_undo with_alice
    ≡ un_follow wide_parser printer actors users keys worker allowed alice_url "t" undo_follow
        with_alice
unfolding get_object_url
un_follow_same_path_example =
    un_follow_same_path wide_parser printer actors users keys worker allowed alice_url "t" far_undo
      undo_follow far_request request far_alice alice_url with_alice refl refl refl refl refl refl
