-- ===== src/Domain/Inbox/Laws.antt =====
-- What a follow request that succeeds has done, and the requests that do nothing.
use estrys.Common.{
  String, str_eq, eq_iff, Bool, Bool-cases, true, false, if◌then◌else◌, some, List, [], ◌∷◌, ◌≡◌,
  ◌≢◌, refl, sym, subst, ap, ◌∙◌, inl, inr, arith, split, last_part, length,
}
use estrys.Outcome.{
  Result, wrap_result, ok, err, follow_mismatch_domain, with_stack, pure, fail, lift, wrapping,
  match_call, ◌>>=◌,
}
use estrys.Outcome.Inversion.{bind_ok, bind_done, wrapped_done, lifted_done, wrapping_ok, lift_ok}
use estrys.Models.{Url, User, Actor}
use estrys.Activity.{Property, text, Follow, Undo, UndoItem, follow_item, other_item, VocabLibrary}
use estrys.Ports.{Library, UserRepository, ActorRepository, KeyManager}
use estrys.Authorization.{Voter, is_granted, subject_of, can_follow_attribute}
use estrys.Worker.Tasks.{Task, WorkerClient, new_accept_follow_task}
use estrys.Domain.Inbox.Actors.{IsActorOf, create_actor_if_no_exist_ok}
use estrys.Domain.Inbox.{
  property_url, parse_serialized, parse_text, get_object_url, get_actor_url, get_user_from_url,
  followed_user, reject, accept, answer, follow_on_domain, follow, un_follow_object, un_follow,
}

-- The URL of an actor that is one text is that text, parsed.
pub get_actor_url-text :
    (library : Library) (vocab : VocabLibrary) (actor : Property) (link : String) (found : Url)
    → vocab.serialize_property actor ≡ ok (text link)
    → get_actor_url library vocab (some actor) ≡ ok found
    → library.parse_url link ≡ ok found
unfolding get_actor_url property_url parse_serialized parse_text
get_actor_url-text library vocab actor link found e h =
    parsed _ (library.parse_url link) (rw e at h)
  where
    parsed : (failure : String) (r : Result Url) → wrap_result failure r ≡ ok found → r ≡ ok found
    parsed failure r h = ground (arith, h)

module _ {W : Type 0} (library : Library) (vocab : VocabLibrary) (actors : ActorRepository W)
    (users : UserRepository W) (keys : KeyManager W) (worker : WorkerClient W) (voters : List Voter)
    (domain : Url) (trace_id : String) where
  -- A request to follow a user of another instance, whose URL is read, is refused, and no service
  -- is called for it.
  pub follow_other_domain :
      (act : Follow) (url : Url) (w : W)
      → get_object_url library vocab act.object ≡ ok url
      → url.host ≢ domain.host
      → follow library vocab actors users keys worker voters domain trace_id act w
        ≡ (err (with_stack follow_mismatch_domain), w)
  unfolding follow lift wrapping fail ◌>>=◌
  follow_other_domain act url w e differ = elim (Bool-cases (str_eq url.host domain.host)) [
    | inl same ↦ absurd (differ ((eq_iff _ _).0 same))
    | inr other ↦ rw e (rw other refl)
  ]

  -- The user and the actor of a request that was accepted, and the effects of accepting it
  pub record Accepted (act : Follow) (url : Url) (w u : W) : Type 0 where
    pub user : User
    pub found : W
    pub is_user : users.get (last_part (split b'/' url.path)) w ≡ (ok user, found)
    pub actor_url : Url
    pub is_actor_url : get_actor_url library vocab act.actor ≡ ok actor_url
    pub actor : Actor
    pub before : W
    pub is_actor : IsActorOf library actors keys actor_url actor found before
    pub after : W
    pub is_followed : users.follow user actor before ≡ (ok tt, after)
    pub task : Task
    pub is_task : new_accept_follow_task vocab trace_id user.username act ≡ ok task
    pub is_queued : worker.enqueue task after ≡ (ok tt, u)

  reject_fails :
      (user : User) (act : Follow) (w : W)
      → (reject library vocab actors users keys worker voters domain trace_id user act w).0 ≢ ok tt
  unfolding reject fail
  reject_fails user act w h =
      let (task, u, _, first) = bind_ok _ _ w h in
      let (_, v, _, second) = bind_ok _ _ u (rw first at h) in cc (rw (first ∙ second) at h)

  followed_user_ok :
      (url : Url) (user : User) (w u : W)
      → followed_user library vocab actors users keys worker voters domain trace_id url w
        ≡ (ok user, u)
      → users.get (last_part (split b'/' url.path)) w ≡ (ok user, u)
  unfolding followed_user get_user_from_url match_call pure fail
  followed_user_ok url user w u h = ground arith

  accept_ok :
      (act : Follow) (url actor_url : Url) (user : User) (actor : Actor) (w found before u : W)
      → users.get (last_part (split b'/' url.path)) w ≡ (ok user, found)
      → get_actor_url library vocab act.actor ≡ ok actor_url
      → IsActorOf library actors keys actor_url actor found before
      → accept library vocab actors users keys worker voters domain trace_id user actor act before
        ≡ (ok tt, u)
      → Accepted act url w u
  unfolding accept
  accept_ok act url actor_url user actor w found before u is_user is_actor_url is_actor h =
      let (_, after, is_followed, rest) = wrapped_done _ _ _ before h in
      let (task, is_task, last) = lifted_done _ _ _ after rest in
      record {
        user = user;
        found = found;
        is_user = is_user;
        actor_url = actor_url;
        is_actor_url = is_actor_url;
        actor = actor;
        before = before;
        is_actor = is_actor;
        after = after;
        is_followed = is_followed;
        task = task;
        is_task = is_task;
        is_queued = wrapping_ok _ _ after last;
      }

  answer_ok :
      (act : Follow) (url actor_url : Url) (user : User) (actor : Actor) (granted : Bool)
      (w found before u : W)
      → users.get (last_part (split b'/' url.path)) w ≡ (ok user, found)
      → get_actor_url library vocab act.actor ≡ ok actor_url
      → IsActorOf library actors keys actor_url actor found before
      → answer library vocab actors users keys worker voters domain trace_id user actor act granted
          before
        ≡ (ok tt, u)
      → (granted ≡ true) × Accepted act url w u
  unfolding answer
  answer_ok act url actor_url user actor true w found before u is_user is_url is_actor h =
      (refl, accept_ok act url actor_url user actor w found before u is_user is_url is_actor h)
  answer_ok act url actor_url user actor false w found before u is_user is_url is_actor h =
      absurd (reject_fails user act before (ap (λ r. r.0) h))

  follow_on_domain_ok :
      (act : Follow) (url : Url) (w u : W)
      → follow_on_domain library vocab actors users keys worker voters domain trace_id act url w
        ≡ (ok tt, u)
      → (is_granted voters (subject_of act.actor) can_follow_attribute ≡ ok true)
        × Accepted act url w u
  unfolding follow_on_domain
  follow_on_domain_ok act url w u h =
      let (user, found, first, rest1) = bind_done _ _ w h in
      let (actor_url, is_actor_url, rest2) = lifted_done _ _ _ found rest1 in
      let (actor, before, made, rest3) = wrapped_done _ _ _ found rest2 in
      let (granted, y, voted, rest4) = bind_done _ _ before rest3 in
      let is_user = followed_user_ok url user w found first in
      let (is_granted, same) = lift_ok _ before voted in
      let is_actor =
        create_actor_if_no_exist_ok library vocab actors users keys worker voters domain trace_id
          actor_url actor found before made in
      let (yes_granted, accepted) =
        answer_ok act url actor_url user actor granted w found before u is_user is_actor_url
          is_actor
          (subst
            (λ x.
              answer library vocab actors users keys worker voters domain trace_id user actor act
                granted x
              ≡ (ok tt, u))
            (sym same) rest4) in
      (is_granted ∙ ap ok yes_granted, accepted)

  on_domain_ok :
      (act : Follow) (url : Url) (w u : W)
      → (if str_eq url.host domain.host
            then follow_on_domain library vocab actors users keys worker voters domain trace_id act
                url
            else fail (with_stack follow_mismatch_domain))
          w
        ≡ (ok tt, u)
      → (url.host ≡ domain.host)
        × (follow_on_domain library vocab actors users keys worker voters domain trace_id act url w
            ≡ (ok tt, u))
  unfolding fail
  on_domain_ok act url w u h = elim (Bool-cases (str_eq url.host domain.host)) [
    | inl same ↦ ((eq_iff _ _).0 same, rw same at h)
    | inr other ↦ cc (rw other at h)
  ]

  -- A follow request succeeds only for a known user of this instance and an actor that is granted; then
  -- the actor that was read or created under the URL of the request's own actor has been written as a
  -- follower of that user, and after it the answer to the request has been queued.
  pub follow_success :
      (act : Follow) (w u : W)
      → follow library vocab actors users keys worker voters domain trace_id act w ≡ (ok tt, u)
      → (url : Url) × (get_object_url library vocab act.object ≡ ok url)
        × (url.host ≡ domain.host)
        × (is_granted voters (subject_of act.actor) can_follow_attribute ≡ ok true)
        × Accepted act url w u
  unfolding follow
  follow_success act w u h =
      let (url, is_object, rest) = lifted_done _ _ _ w h in
      let (on_domain, done) = on_domain_ok act url w u rest in
      let (granted, accepted) = follow_on_domain_ok act url w u done in
      (url, is_object, on_domain, granted, accepted)

  un_follow_object_nothing :
      (items : List UndoItem) (url : Url) (w : W)
      → length items ≢ 1
      → un_follow_object library vocab actors users keys worker voters domain trace_id
          (some items)
          url
          w
        ≡ (ok tt, w)
  unfolding un_follow_object pure
  un_follow_object_nothing [] url w several = refl
  un_follow_object_nothing (item ∷ []) url w several = absurd (several (omega arith))
  un_follow_object_nothing (follow_item f ∷ other ∷ items) url w several = refl
  un_follow_object_nothing (other_item kind ∷ other ∷ items) url w several = refl

  -- An undo whose actor is read, with an object property that holds none or several, is reported as a
  -- success, and nothing is done.
  pub un_follow_nothing :
      (act : Undo) (items : List UndoItem) (url : Url) (w : W)
      → get_actor_url library vocab act.actor ≡ ok url
      → act.object ≡ some items
      → length items ≢ 1
      → un_follow library vocab actors users keys worker voters domain trace_id act w ≡ (ok tt, w)
  unfolding un_follow pure lift wrapping ◌>>=◌
  un_follow_nothing act items url w e held several =
      rw (e, held) (un_follow_object_nothing items url w several)
