-- ===== src/Domain/Inbox/Unfollowing.antt =====
-- What an undo that succeeds has done.
use estrys.Common.{String, some, List, [], ◌∷◌, ◌≡◌, refl, subst, split, last_part}
use estrys.Outcome.{ok, lift, wrapping, ◌>>=◌}
use estrys.Outcome.Inversion.{bind_done, wrapped_done, lifted_done, wrapping_ok}
use estrys.Models.{Url, User, Actor}
use estrys.Activity.{Follow, Undo, follow_item, VocabLibrary}
use estrys.Ports.{Library, UserRepository, ActorRepository, KeyManager}
use estrys.Authorization.{Voter}
use estrys.Worker.Tasks.{WorkerClient}
use estrys.Domain.Inbox.{
  get_object_url, get_actor_url, get_user_from_url, create_actor_if_no_exist, un_follow_user,
  un_follow_object, un_follow,
}

module _ {W : Type 0} (library : Library) (vocab : VocabLibrary) (actors : ActorRepository W)
    (users : UserRepository W) (keys : KeyManager W) (worker : WorkerClient W) (voters : List Voter)
    (domain : Url) (trace_id : String) where
  -- The actor of the undo was removed from the followers of the user that the undone follow names.
  pub record Unfollowed (act : Undo) (followed : Follow) (w u : W) : Type 0 where
    pub actor_url : Url
    pub is_actor_url : get_actor_url library vocab act.actor ≡ ok actor_url
    pub user_url : Url
    pub is_user_url : get_object_url library vocab followed.object ≡ ok user_url
    pub user : User
    pub found : W
    pub is_user : users.get (last_part (split b'/' user_url.path)) w ≡ (ok user, found)
    pub actor : Actor
    pub before : W
    pub is_actor :
        create_actor_if_no_exist library vocab actors users keys worker voters domain trace_id
          actor_url found
        ≡ (ok actor, before)
    pub is_unfollowed : users.un_follow user actor before ≡ (ok tt, u)

  -- An undo of one follow succeeds only for a user that is known, and then the actor of the undo, which
  -- was read or created, was removed from the followers of that user.
  pub un_follow_success :
      (act : Undo) (followed : Follow) (w u : W)
      → act.object ≡ some (follow_item followed ∷ [])
      → un_follow library vocab actors users keys worker voters domain trace_id act w ≡ (ok tt, u)
      → Unfollowed act followed w u
  unfolding un_follow un_follow_user get_user_from_url un_follow_object
  un_follow_success act followed w u one h =
      let (actor_url, is_actor_url, rest1) = lifted_done _ _ _ w h in
      let undone : un_follow_user library vocab actors users keys worker voters domain trace_id
            followed actor_url w
          ≡ (ok tt, u) =
        subst
          (λ items.
            un_follow_object library vocab actors users keys worker voters domain trace_id items
              actor_url w
            ≡ (ok tt, u))
          one rest1 in
      let (user_url, is_user_url, rest2) = lifted_done _ _ _ w undone in
      let (user, found, is_user, rest3) = bind_done _ _ w rest2 in
      let (actor, before, is_actor, rest4) = wrapped_done _ _ _ found rest3 in
      record {
        actor_url = actor_url;
        is_actor_url = is_actor_url;
        user_url = user_url;
        is_user_url = is_user_url;
        user = user;
        found = found;
        is_user = is_user;
        actor = actor;
        before = before;
        is_actor = is_actor;
        is_unfollowed = wrapping_ok _ _ before rest4;
      }

  -- Two undos of the same actor whose follows name URLs with the same path, on whatever instances, do
  -- the same.
  pub un_follow_same_path :
      (act other : Undo) (followed followed' : Follow) (url url' : Url) (w : W)
      → act.actor ≡ other.actor
      → act.object ≡ some (follow_item followed ∷ [])
      → other.object ≡ some (follow_item followed' ∷ [])
      → get_object_url library vocab followed.object ≡ ok url
      → get_object_url library vocab followed'.object ≡ ok url'
      → url.path ≡ url'.path
      → un_follow library vocab actors users keys worker voters domain trace_id act w
        ≡ un_follow library vocab actors users keys worker voters domain trace_id other w
  unfolding un_follow un_follow_user get_user_from_url un_follow_object lift wrapping ◌>>=◌
  un_follow_same_path act other followed followed' url url' w same one one' read read' path =
      rw (one, one', same) (rw (read, read') (rw path refl))
