-- ===== src/Web/Follows.antt =====
-- A follow request from its route to the answer that is queued.
use estrys.Common.{String, Bool, true, List, ◌≡◌, ◌⊎◌, sym, ◌∙◌}
use estrys.Outcome.{ok, Action, pure}
use estrys.Models.{Url}
use estrys.Activity.{Follow, Undo, VocabLibrary}
use estrys.Ports.{Library, UserRepository, ActorRepository, KeyManager, TwitterClient}
use estrys.Authorization.{Voter, is_granted, subject_of, can_follow_attribute}
use estrys.Worker.Tasks.{WorkerClient}
use estrys.Domain.Inbox.{get_object_url, new_inbox_service}
use estrys.Domain.Inbox.Laws.{Accepted, follow_success}
use estrys.Web.{Response, JsonResolver}
use estrys.Web.Signature.{SignedRequest, inbox_route}
use estrys.Web.Signature.Laws.{Verified, inbox_route_accepted}

module _ {W : Type 0} (library : Library) (vocab : VocabLibrary) (actors : ActorRepository W)
    (users : UserRepository W) (keys : KeyManager W) (worker : WorkerClient W) (voters : List Voter)
    (domain : Url) (trace_id : String) (twitter : TwitterClient W) (resolver : JsonResolver W)
    (disabled : Bool) where
  -- Where the resolver calls back for the follow that a body holds, the inbox answers the request as
  -- accepted only when the verification of signatures is disabled or the signature was verified, and the
  -- follow is of a known user of this instance by an actor that is granted; then the actor that was read or
  -- created under the URL of the follow's own actor has been written as a follower of that user, and
  -- after it the answer to the follow has been queued.
  pub inbox_route_follow :
      (hub : Bool) (request : SignedRequest) (username body : String) (response : Response)
      (act : Follow) (w u : W)
      → ((json : resolver.Json) (follow : Follow → Action W (Unit {0}))
            (un_follow : Undo → Action W (Unit {0})) (delete : Action W (Unit {0})) (v : W)
          → resolver.decode body ≡ ok json
          → resolver.resolve follow un_follow delete json v ≡ follow act v)
      → inbox_route twitter
          (new_inbox_service library vocab actors users keys worker voters domain trace_id)
          resolver
          disabled
          keys
          hub
          request
          username
          body
          w
        ≡ (ok response, u)
      → response.status ≡ 202
      → (v known : W) × (url : Url) × ((disabled ≡ true) ⊎ Verified keys request w v)
        × (get_object_url library vocab act.object ≡ ok url)
        × (url.host ≡ domain.host)
        × (is_granted voters (subject_of act.actor) can_follow_attribute ≡ ok true)
        × Accepted library vocab actors users keys worker voters domain trace_id act url known u
  unfolding new_inbox_service
  inbox_route_follow hub request username body response act w u calls h accepted =
      let (v, signed, handled) =
        inbox_route_accepted twitter _ resolver disabled keys hub request username body response w u
          h accepted in
      let followed =
        sym (calls handled.json _ _ (pure tt) handled.known handled.is_json) ∙ handled.is_done in
      let (url, is_object, on_domain, granted, done) =
        follow_success library vocab actors users keys worker voters domain trace_id act
          handled.known u followed in
      (v, handled.known, url, signed, is_object, on_domain, granted, done)
