-- ===== src/Urls.antt =====
-- internal/router/urlgenerator/url_generator.go and internal/router/routes/routes.go: the program's own
-- URLs. The router that fills the path of a route is the library's and a parameter.
pub mod Paths
use estrys.Common.{ℕ, String, List, [], ◌∷◌}
use estrys.Outcome.{Result, ok, wrap_result}
use estrys.Outcome.Fallible.{◌>>=◌}
use estrys.Models.{Url}
use estrys.Ports.{UrlGenerator}

abbrev pub host_meta_route : String
host_meta_route = "host_meta"

abbrev pub webfinger_route : String
webfinger_route = "webfinger"

abbrev pub user_route : String
user_route = "user_get"

abbrev pub user_following_route : String
user_following_route = "user_following"

abbrev pub user_followers_route : String
user_followers_route = "user_followers"

abbrev pub user_outbox_route : String
user_outbox_route = "user_outbox"

abbrev pub user_inbox_route : String
user_inbox_route = "user_inbox"

abbrev pub status_route : String
status_route = "status"

pub data GenerateRouteOption : Type 0 where
  option_absolute_url : GenerateRouteOption

-- The loop over the options
unfoldable pub with_options : Url → List GenerateRouteOption → Url → Url
with_options domain [] url = url
with_options domain (option_absolute_url ∷ options) url =
    with_options domain options (record url { host = domain.host; scheme = domain.scheme })

-- `r.router.Get(routeName).URL(params...)`
pub record Router : Type 0 where
  pub route_url : String → List String → Result Url

module _ (router : Router) (domain : Url) where
  unfoldable pub url : String → List String → List GenerateRouteOption → Result Url
  url route params options = do
    found ← wrap_result "unable to generate URL for route" (router.route_url route params)
    ok (with_options domain options found)

  unfoldable pub new_url_generator : UrlGenerator
  new_url_generator = record { url = λ route params. url route params (option_absolute_url ∷ []) }
