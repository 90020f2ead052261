-- ===== src/Domain/Inbox/Frames.antt =====
-- A denied follow request leaves no follower behind.
use estrys.Common.{String, Bool, true, false, List, ◌≢◌, refl}
use estrys.Outcome.{Result, ok, err, panic, Action, fail, lift, ◌>>=◌}
use estrys.Outcome.Keeps.{
  Keeps, Keeps-pure, Keeps-fail, Keeps-lift, Keeps-wrapping, Keeps-if, Keeps-match_call, Keeps-bind,
}
use estrys.Models.{Url, PublicKey, User}
use estrys.Activity.{Follow, VocabLibrary}
use estrys.Ports.{Library, UserRepository, ActorRepository, KeyManager}
use estrys.Authorization.{Voter, is_granted, subject_of, can_follow_attribute}
use estrys.Worker.Tasks.{Task, WorkerClient}
use estrys.Domain.Inbox.{
  get_user_from_url, followed_user, create_actor, create_actor_if_no_exist, reject, answer,
  follow_on_domain, follow,
}

-- What every call but the one that writes a follower keeps
pub record IsKept {W : Type 0} (P : W → Type 0) (actors : ActorRepository W)
    (users : UserRepository W) (keys : KeyManager W) (worker : WorkerClient W) : Type 0 where
  pub get_keeps : (name : String) → Keeps P (users.get name)
  pub get_actor_keeps : (url : Url) → Keeps P (actors.get url)
  pub create_actor_keeps : (url : Url) (key : PublicKey) → Keeps P (actors.create url key)
  pub fetch_key_keeps : (id : String) → Keeps P (keys.fetch_key id)
  pub enqueue_keeps : (task : Task) → Keeps P (worker.enqueue task)

module _ {W : Type 0} (library : Library) (vocab : VocabLibrary) (actors : ActorRepository W)
    (users : UserRepository W) (keys : KeyManager W) (worker : WorkerClient W) (voters : List Voter)
    (domain : Url) (trace_id : String) (P : W → Type 0)
    (kept : IsKept P actors users keys worker) where
  followed_user-Keeps :
      (url : Url)
      → Keeps P (followed_user library vocab actors users keys worker voters domain trace_id url)
  unfolding followed_user get_user_from_url
  followed_user-Keeps url =
      Keeps-match_call _ _ _ (kept.get_keeps _) Keeps-pure
        (λ e. Keeps-if _ _ _ (Keeps-fail _) (Keeps-fail _))

  create_actor_if_no_exist-Keeps :
      (url : Url)
      → Keeps P (
          create_actor_if_no_exist library vocab actors users keys worker voters domain trace_id
            url)
  unfolding create_actor_if_no_exist create_actor
  create_actor_if_no_exist-Keeps url =
      Keeps-match_call _ _ _ (kept.get_actor_keeps url) Keeps-pure λ e.
        Keeps-if _ _ _
          (Keeps-bind _ _ (Keeps-wrapping _ _ (kept.fetch_key_keeps _))
            (λ key. Keeps-wrapping _ _ (kept.create_actor_keeps url key)))
          (Keeps-fail _)

  reject-Keeps :
      (user : User) (act : Follow)
      → Keeps P (reject library vocab actors users keys worker voters domain trace_id user act)
  unfolding reject
  reject-Keeps user act =
      Keeps-bind _ _ (Keeps-wrapping _ _ (Keeps-lift _))
        λ task. Keeps-bind _ _ (Keeps-wrapping _ _ (kept.enqueue_keeps task)) λ _. Keeps-fail _

  -- The rest of a block after a test that is known to be false
  bind_false-Keeps :
      (r : Result Bool) (f : Bool → Action W (Unit {0}))
      → r ≢ ok true
      → Keeps P (f false)
      → Keeps P (lift r >>= f)
  unfolding lift fail ◌>>=◌
  bind_false-Keeps (ok true) f no_true k = absurd (no_true refl)
  bind_false-Keeps (ok false) f no_true k = record { at = k.at }
  bind_false-Keeps (err e) f no_true k = record { at = λ w h. h }
  bind_false-Keeps (panic why) f no_true k = record { at = λ w h. h }

  -- A follow request of an actor that is not granted keeps every property of the world that all
  -- calls but the one that writes a follower keep: so no follower is written for it.
  pub follow_denied-Keeps :
      (act : Follow)
      → is_granted voters (subject_of act.actor) can_follow_attribute ≢ ok true
      → Keeps P (follow library vocab actors users keys worker voters domain trace_id act)
  unfolding follow follow_on_domain answer
  follow_denied-Keeps act denied = Keeps-bind _ _ (Keeps-wrapping _ _ (Keeps-lift _)) λ object_url.
      Keeps-if _ _ _
        (Keeps-bind _ _ (followed_user-Keeps object_url) λ user.
          Keeps-bind _ _ (Keeps-wrapping _ _ (Keeps-lift _)) λ actor_url.
            Keeps-bind _ _ (Keeps-wrapping _ _ (create_actor_if_no_exist-Keeps actor_url))
              λ actor. bind_false-Keeps _ _ denied (reject-Keeps user act))
        (Keeps-fail _)
