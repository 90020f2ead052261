-- ===== src/Urls/Paths/RoundTrip.antt =====
-- The URL of a user leads back to the user.
use text.Mathlib.TextLemmas.{append-nil}
use Prim.Native.String.{◌++◌ as cat}
use estrys.Common.{
  String, str_eq, if◌then◌else◌, Option, none, eq_refl, some, List, [], ◌∷◌, ◌≡◌, refl, sym, ap,
  ◌∙◌, arith, split, last_part, Lacks, last_part-split,
}
use estrys.Outcome.{ok, lift, wrapping, ◌>>=◌}
use estrys.Outcome.Fallible.{ok_injective, wrapped-eq-ok}
use estrys.Models.{Url}
use estrys.Activity.{Follow, VocabLibrary}
use estrys.Ports.{Library, UserRepository, ActorRepository, KeyManager}
use estrys.Authorization.{Voter}
use estrys.Worker.Tasks.{WorkerClient}
use estrys.Domain.Inbox.{get_object_url, get_user_from_url, follow_on_domain, follow}
use estrys.Urls.{user_route, with_options, Router, url, new_url_generator}
use estrys.Urls.Paths.{
  Piece, literal, variable, Route, get_router, activitypub_routes, status_routes,
}

-- The path of the route of a name
unfoldable pub path_of : String → List Route → Option (List Piece)
path_of name [] = none
path_of name (route ∷ routes) =
    let rest = path_of name routes in if str_eq route.name name then some route.path else rest

-- The value of a variable among names and values
unfoldable pub value_of : String → List String → String
value_of name (key ∷ value ∷ params) =
    let rest = value_of name params in if str_eq key name then value else rest
value_of name _ = ""

-- A path with values in the place of its variables
unfoldable pub fill : List Piece → List String → String
fill [] params = ""
fill (literal text ∷ pieces) params = cat text (fill pieces params)
fill (variable name ∷ pieces) params = cat (value_of name params) (fill pieces params)

-- What the router of the library gives for a name and values: the path of that route with the values
-- in the place of its variables, and a value has no slash.
pub record IsRouter (router : Router) : Type 0 where
  pub is_filled :
      (name : String) (params : List String) (found : Url) (path : List Piece)
      → router.route_url name params ≡ ok found
      → path_of name get_router ≡ some path
      → found.path ≡ fill path params
  pub lacks_slash :
      (name key value : String) (params : List String) (found : Url)
      → router.route_url name (key ∷ value ∷ params) ≡ ok found
      → Lacks b'/' value

module _ (router : Router) (domain : Url) (is : IsRouter router) where
  -- A URL that is generated for a user is on the instance, and its path ends with the user's name.
  pub url-user_route :
      (name : String) (u : Url)
      → (new_url_generator router domain).url user_route ("username" ∷ name ∷ []) ≡ ok u
      → (u.scheme ≡ domain.scheme)
        × (u.host ≡ domain.host)
        × (u.path ≡ cat "/users/" name)
        × (last_part (split b'/' u.path) ≡ name)
  unfolding new_url_generator url with_options path_of fill value_of get_router activitypub_routes
      status_routes
  url-user_route name u h =
      let (found, is_found, rest) = wrapped-eq-ok _ _ _ h in
      let path = is.is_filled user_route ("username" ∷ name ∷ []) found _ is_found refl in
      let filled : u.path ≡ cat "/users/" name =
        sym (ap (λ v. v.path) (ok_injective rest)) ∙ path ∙ ap (cat "/users/") (append-nil name) in
      let lacks = is.lacks_slash user_route "username" name [] found is_found in
      (
        ground (arith, rest),
        ground (arith, rest),
        filled,
        ap (λ p. last_part (split b'/' p)) filled ∙ last_part-split b'/' "/users/" name refl lacks,
      )

  module _ {W : Type 0} (library : Library) (vocab : VocabLibrary) (actors : ActorRepository W)
      (users : UserRepository W) (keys : KeyManager W) (worker : WorkerClient W)
      (voters : List Voter) (trace_id : String) where
    -- Where the router fills the route with the name, and a name has no slash, a request to follow the
    -- URL that is generated for a user passes the check of the instance, and the user that is looked up
    -- for it is the one of that name.
    pub follow_generated :
        (act : Follow) (name : String) (u : Url) (w : W)
        → (new_url_generator router domain).url user_route ("username" ∷ name ∷ []) ≡ ok u
        → get_object_url library vocab act.object ≡ ok u
        → (follow library vocab actors users keys worker voters domain trace_id act w
            ≡ follow_on_domain library vocab actors users keys worker voters domain trace_id act u
                w)
          × (get_user_from_url library vocab actors users keys worker voters domain trace_id u w
              ≡ users.get name w)
    unfolding follow get_user_from_url lift wrapping ◌>>=◌
    follow_generated act name u w h e =
        let (_, is_host, _, is_name) = url-user_route name u h in
        (rw e (rw is_host (rw (eq_refl domain.host) refl)), ap (λ n. users.get n w) is_name)
