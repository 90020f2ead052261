-- ===== src/Dic.antt =====
-- internal/dic/dic.go: the container of the services, which `Register` fills and `GetService` reads.
-- A service is stored under the name of its type, and `Register[T]` takes a T only, so that the
-- assertion to T with which `GetService[T]` ends holds: the values are of Go's `any`, which is the
-- parameter `Any`.
pub mod Container
pub mod Laws
pub mod Built
use Prim.Native.String
use estrys.Common.{String, str_eq, Bool, if◌then◌else◌, List, [], ◌∷◌, Option, some, none}
use estrys.Outcome.{ok, panic, Action}

-- `services`, by the names of the types
abbrev pub Services : Type 0 → Type 0
Services Any = List (String × Any)

module _ {Any : Type 0} where
  unfoldable pub service_of : String → Services Any → Option Any
  service_of name [] = none
  service_of name ((n, service) ∷ rest) =
      let found = service_of name rest in if str_eq name n then some service else found

  abbrev pub got : String → Option Any → Action (Services Any) Any
  got name (some service) services = (ok service, services)
  got name none services =
      (panic (String.◌++◌ "service " (String.◌++◌ name " does not exist")), services)

  unfoldable pub get_service : String → Action (Services Any) Any
  get_service name services = got name (service_of name services) services

  abbrev pub stored : String → Any → Option Any → Action (Services Any) (Unit {0})
  stored name service (some _) services = (ok tt, services)
  stored name service none services = (ok tt, (name, service) ∷ services)

  unfoldable pub register : String → Any → Action (Services Any) (Unit {0})
  register name service services = stored name service (service_of name services) services

  unfoldable pub reset_container : Action (Services Any) (Unit {0})
  reset_container services = (ok tt, [])
