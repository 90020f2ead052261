-- ===== src/Tests/Receiving.antt =====
-- A follow request from its route to the answer that is queued, on concrete services.
use estrys.Common.{false, none, true, ◌≡◌, ◌⊎◌, refl, sym, ap}
use estrys.Outcome.{ok, Action}
use estrys.Outcome.Fallible.{ok_injective}
use estrys.Models.{Url}
use estrys.Activity.{Follow, Undo}
use estrys.Authorization.{is_granted, subject_of, can_follow_attribute}
use estrys.Domain.Inbox.{get_object_url, new_inbox_service}
use estrys.Domain.Inbox.Laws.{Accepted}
use estrys.Web.Signature.{
  is_request_signed, algorithm_of, serve_verified, verify_with, with_verifier, http_sig_middleware,
  inbox_route,
}
use estrys.Web.Signature.Laws.{Verified}
use estrys.Web.Follows.{inbox_route_follow}
use estrys.Tests.Services.{
  World, alice_url, with_alice, parser, printer, users, actors, keys, worker, twitter,
}
use estrys.Tests.Following.{granting, following, allowed, followed, request}
use estrys.Tests.Serving.{serving, resolver}
use estrys.Tests.Routing.{signed}

called :
    (json : Follow) (follow : Follow → Action World (Unit {0}))
    (un_follow : Undo → Action World (Unit {0})) (delete : Action World (Unit {0})) (v : World)
    → resolver.decode "follow" ≡ ok json
    → resolver.resolve follow un_follow delete json v ≡ follow request v
called json follow un_follow delete v e = ap (λ act. follow act v) (sym (ok_injective e))

inbox_route_follow_example :
    (v known : World) × (url : Url) × ((false ≡ true) ⊎ Verified keys signed with_alice v)
    × (get_object_url parser printer request.object ≡ ok url)
    × (url.host ≡ "here")
    × (is_granted allowed (subject_of request.actor) can_follow_attribute ≡ ok true)
    × Accepted parser printer actors users keys worker allowed alice_url "t" request url known
        followed
unfolding granting following serving new_inbox_service is_request_signed algorithm_of serve_verified
    verify_with with_verifier http_sig_middleware inbox_route
inbox_route_follow_example =
    inbox_route_follow parser printer actors users keys worker allowed alice_url "t" twitter
      resolver false true signed "alice" "follow" (record { status = 202; error = none; body = "" })
      request with_alice followed called refl refl
