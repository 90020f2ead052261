-- ===== src/Tests/Routing.antt =====
-- The program's own URLs and the route of an inbox, on concrete services.
use estrys.Common.{
  String, str_eq, eq_iff, Bool-cases, true, false, if◌then◌else◌, Option, none, some, List, [], ◌∷◌,
  ◌≡◌, ◌⊎◌, refl, sym, subst, inl, inr, Lacks, arith,
}
use estrys.Outcome.{
  Action, Result, ok, err, message, no_rows, pure, fail, crash, lift, wrapping, match_call, ◌>>=◌,
}
use estrys.Models.{Url}
use estrys.Activity.{Follow, iri}
use estrys.Domain.Inbox.{get_object_url, get_user_from_url, follow_on_domain, follow}
use estrys.Urls.{status_route, with_options, Router, url, new_url_generator}
use estrys.Urls.Paths.{Piece, activitypub_routes, status_routes, get_router}
use estrys.Urls.Paths.RoundTrip.{path_of, value_of, fill, IsRouter, follow_generated}
use estrys.Web.{respond, or_refuse, http_error_handler, handle_signed, handle_inbox}
use estrys.Web.Laws.{Handled}
use estrys.Web.Signature.{
  Verifier, SignedRequest, rsa_sha256, is_request_signed, algorithm_of, serve_verified, verify_with,
  with_verifier, http_sig_middleware, inbox_route,
}
use estrys.Web.Signature.Laws.{Verified, inbox_route_accepted}
use estrys.Tests.Services.{
  World, alice_url, bob_url, here, with_alice, parser, printer, users, actors, keys, worker,
  twitter,
}
use estrys.Tests.Serving.{inbox, resolver}

routing : Unit {0}
unfolding path_of value_of fill activitypub_routes status_routes get_router with_options url
    new_url_generator estrys.Outcome.Fallible.◌>>=◌
routing = tt

-- The paths that the router fills
paths_tests :
    (path_of status_route get_router
      ≡ some (
          Piece.literal "/status/"
          ∷ Piece.variable "username"
          ∷ Piece.literal "/"
          ∷ Piece.variable "id"
          ∷ []))
    × (path_of "nowhere" get_router ≡ none)
unfolding routing
paths_tests = (refl, refl)

abbrev filled : Option (List Piece) → List String → Result Url
filled none params = err (message "no route")
filled (some path) params = ok (record { scheme = ""; host = ""; path = fill path params })

-- A router that knows one name
abbrev routed : String → List String → Result Url
routed route (key ∷ name ∷ params) =
    if str_eq name "alice"
    then filled (path_of route get_router) (key ∷ name ∷ params)
    else err (message "no match")
routed route params = filled (path_of route get_router) params

abbrev router : Router
router = record { route_url = routed }

filled_path :
    (o : Option (List Piece)) (params : List String) (found : Url) (path : List Piece)
    → filled o params ≡ ok found
    → o ≡ some path
    → found.path ≡ fill path params
filled_path none params found path h e = cc e
filled_path (some p) params found path h e = ground (arith, h, e)

routed_path :
    (name : String) (params : List String) (found : Url) (path : List Piece)
    → routed name params ≡ ok found
    → path_of name get_router ≡ some path
    → found.path ≡ fill path params
routed_path name [] found path h e = filled_path _ [] found path h e
routed_path name (key ∷ []) found path h e = filled_path _ (key ∷ []) found path h e
routed_path name (key ∷ value ∷ params) found path h e = elim (Bool-cases (str_eq value "alice")) [
  | inl same ↦ filled_path _ (key ∷ value ∷ params) found path (rw same at h) e
  | inr other ↦ cc (rw other at h)
]

routed-Lacks :
    (name key value : String) (params : List String) (found : Url)
    → routed name (key ∷ value ∷ params) ≡ ok found
    → Lacks b'/' value
routed-Lacks name key value params found h = elim (Bool-cases (str_eq value "alice")) [
  | inl same ↦
      subst (Lacks b'/') (sym ((eq_iff value "alice").0 same))
        (refl, (refl, (refl, (refl, (refl, tt)))))
  | inr other ↦ cc (rw other at h)
]

router-IsRouter : IsRouter router
router-IsRouter = record { is_filled = routed_path; lacks_slash = routed-Lacks }

abbrev request : Follow
request = record { actor = some (iri bob_url ∷ []); object = some (iri alice_url ∷ []) }

follow_generated_example :
    (follow parser printer actors users keys worker [] here "t" request with_alice
      ≡ follow_on_domain parser printer actors users keys worker [] here "t" request alice_url
          with_alice)
    × (get_user_from_url parser printer actors users keys worker [] here "t" alice_url with_alice
        ≡ users.get "alice" with_alice)
unfolding routing get_object_url
follow_generated_example =
    follow_generated router here router-IsRouter parser printer actors users keys worker [] "t"
      request "alice" alice_url with_alice refl refl

-- A signature that is verified with one algorithm only
abbrev verifier : Verifier
verifier = record {
  key_id = "https://far/users/bob";
  verify = λ key algorithm. elim algorithm [ rsa_sha256 ↦ ok tt | _ ↦ err (message "no match") ];
}

abbrev pub signed : SignedRequest
signed = record { signature = "keyId"; new_verifier = ok verifier }

inbox_route_accepted_example :
    (v : World) × ((false ≡ true) ⊎ Verified keys signed with_alice v)
    × Handled twitter inbox resolver "alice" "follow" v with_alice
unfolding pure fail crash lift match_call respond or_refuse http_error_handler handle_signed
    handle_inbox is_request_signed algorithm_of serve_verified verify_with with_verifier
    http_sig_middleware inbox_route
inbox_route_accepted_example =
    inbox_route_accepted twitter inbox resolver false keys true signed "alice" "follow"
      (record { status = 202; error = none; body = "" }) with_alice with_alice refl refl
