-- ===== src/Domain/Inbox/Repeats.antt =====
-- A follow request of an actor that follows already.
use estrys.Common.{String, str_eq, eq_iff, true, List, ◌≡◌, refl, ◌∙◌, split, last_part}
use estrys.Outcome.{Error, ok, err, wrap, pure, wrapping}
use estrys.Outcome.Inversion.{bind_run_ok, bind_run_err, match_call_ok, lift_run, lifted_run}
use estrys.Models.{Url, User, Actor}
use estrys.Activity.{Follow, VocabLibrary}
use estrys.Ports.{Library, UserRepository, ActorRepository, KeyManager}
use estrys.Authorization.{Voter, is_granted, subject_of, can_follow_attribute}
use estrys.Worker.Tasks.{WorkerClient}
use estrys.Domain.Inbox.{
  get_object_url, get_actor_url, get_user_from_url, followed_user, create_actor_if_no_exist, accept,
  answer, follow_on_domain, follow,
}

-- While the pair of the user and the actor is held, both are found, and the table of followers, whose key
-- is the pair, refuses it.
pub record IsHeld {W : Type 0} (users : UserRepository W) (actors : ActorRepository W)
    (name : String) (url : Url) (user : User) (actor : Actor) (Held : W → Type 0) : Type 0 where
  pub finds_user : (w : W) → Held w → (u : W) × (users.get name w ≡ (ok user, u)) × Held u
  pub finds_actor : (w : W) → Held w → (u : W) × (actors.get url w ≡ (ok actor, u)) × Held u
  pub refuses :
      (w : W) → Held w → (e : Error) × (u : W) × (users.follow user actor w ≡ (err e, u)) × Held u

module _ {W : Type 0} (library : Library) (vocab : VocabLibrary) (actors : ActorRepository W)
    (users : UserRepository W) (keys : KeyManager W) (worker : WorkerClient W) (voters : List Voter)
    (domain : Url) (trace_id : String) where
  found_user :
      (url : Url) (user : User) (w u : W)
      → users.get (last_part (split b'/' url.path)) w ≡ (ok user, u)
      → followed_user library vocab actors users keys worker voters domain trace_id url w
        ≡ (ok user, u)
  unfolding followed_user get_user_from_url pure
  found_user url user w u e = match_call_ok _ _ _ w e

  found_actor :
      (url : Url) (actor : Actor) (w u : W)
      → actors.get url w ≡ (ok actor, u)
      → wrapping "unable to create actor"
          (create_actor_if_no_exist library vocab actors users keys worker voters domain trace_id
            url)
          w
        ≡ (ok actor, u)
  unfolding create_actor_if_no_exist wrapping pure
  found_actor url actor w u e = rw (match_call_ok _ pure _ w e) refl

  refused :
      (user : User) (actor : Actor) (act : Follow) (e : Error) (w u : W)
      → users.follow user actor w ≡ (err e, u)
      → answer library vocab actors users keys worker voters domain trace_id user actor act true w
        ≡ (err (wrap "unable to follow actor" e), u)
  unfolding answer accept wrapping
  refused user actor act e w u h = bind_run_err _ _ w (rw h refl)

  -- Where a user and an actor are found, and the table of followers refuses the pair that it holds, a
  -- follow request of an actor that follows the user already fails, though it is granted: it ends with the
  -- call that is refused, so that no answer is queued for it, and the pair is still held, so that each
  -- further request fails as well.
  pub follow_held :
      (act : Follow) (url actor_url : Url) (user : User) (actor : Actor) (Held : W → Type 0) (w : W)
      → IsHeld users actors (last_part (split b'/' url.path)) actor_url user actor Held
      → get_object_url library vocab act.object ≡ ok url
      → url.host ≡ domain.host
      → get_actor_url library vocab act.actor ≡ ok actor_url
      → is_granted voters (subject_of act.actor) can_follow_attribute ≡ ok true
      → Held w
      → (e : Error) × (before u : W) × (users.follow user actor before ≡ (err e, u))
        × (follow library vocab actors users keys worker voters domain trace_id act w
            ≡ (err (wrap "unable to follow actor" e), u))
        × Held u
  unfolding follow follow_on_domain
  follow_held act url actor_url user actor Held w table is_url host is_actor granted held =
      let (x, got, held1) = table.finds_user w held in
      let (y, known, held2) = table.finds_actor x held1 in
      let (e, u, full, held3) = table.refuses y held2 in
      let on_domain : str_eq url.host domain.host ≡ true = (eq_iff _ _).1 host in
      let rest =
        bind_run_ok _ _ w (found_user url user w x got)
        ∙ bind_run_ok _ _ x (lifted_run _ _ x is_actor)
        ∙ bind_run_ok _ _ x (found_actor actor_url actor x y known)
        ∙ bind_run_ok _ _ y (lift_run _ y granted)
        ∙ refused user actor act e y u full in
      (e, y, u, full, bind_run_ok _ _ w (lifted_run _ _ w is_url) ∙ rw on_domain rest, held3)
