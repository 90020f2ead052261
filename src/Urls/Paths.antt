-- ===== src/Urls/Paths.antt =====
-- internal/activitypub/routes/router.go, internal/domain/status/router.go and
-- internal/router/router.go: the routes of the server, which the router of the library matches and
-- fills. A path is given as its pieces, the prefix of its subrouter first.
pub mod RoundTrip
use Prim.Native.String.{◌++◌ as cat}
use estrys.Common.{String, str_eq, if◌then◌else◌, Option, none, some, List, [], ◌∷◌, ◌++◌}
use estrys.Urls.{
  user_route, user_following_route, user_followers_route, user_outbox_route, user_inbox_route,
  status_route, host_meta_route, webfinger_route,
}

pub data Piece : Type 0 where
  literal variable : String → Piece

pub data Method : Type 0 where
  get_method post_method any_method : Method

pub record Route : Type 0 where
  pub name : String
  pub path : List Piece
  pub method : Method

-- A path of the subrouter of users
abbrev user_path : String → List Piece
user_path rest = literal "/users/" ∷ variable "username" ∷ literal rest ∷ []

-- `Router` of the activitypub routes
unfoldable pub activitypub_routes : List Route
activitypub_routes =
    record {
      name = host_meta_route;
      path = literal "/.well-known/host-meta" ∷ [];
      method = get_method;
    }
    ∷ record {
      name = webfinger_route;
      path = literal "/.well-known/webfinger" ∷ [];
      method = get_method;
    }
    ∷ record { name = user_route; path = user_path ""; method = get_method }
    ∷ record { name = user_following_route; path = user_path "/following"; method = get_method }
    ∷ record { name = user_followers_route; path = user_path "/followers"; method = get_method }
    ∷ record { name = user_outbox_route; path = user_path "/outbox"; method = get_method }
    ∷ record { name = user_inbox_route; path = user_path "/inbox"; method = post_method }
    ∷ []

-- `StatusRouter`
unfoldable pub status_routes : List Route
status_routes =
    record {
      name = status_route;
      path = literal "/status/" ∷ variable "username" ∷ literal "/" ∷ variable "id" ∷ [];
      method = get_method;
    }
    ∷ []

-- `GetRouter`, with the route of the front page, which has no name
unfoldable pub get_router : List Route
get_router =
    activitypub_routes
    ++ (record { name = ""; path = literal "/" ∷ []; method = any_method } ∷ status_routes)
