-- ===== src/Server/Laws.antt =====
-- What the server does while its context lasts, and when it ends.
use estrys.Common.{none, some, List, [], ◌∷◌, ◌++◌, ◌≡◌, refl}
use estrys.Server.{
  Event, request, listening_ended, context_done, HttpServer, shut_down, start_server,
}

module _ {W Request : Type 0} (server : HttpServer W Request) where
  -- No event of these is the end of the context.
  abbrev pub IsRunning : List (Event Request) → Type 0
  IsRunning [] = Unit
  IsRunning (request r ∷ events) = IsRunning events
  IsRunning (listening_ended e ∷ events) = IsRunning events
  IsRunning (context_done ∷ events) = ⊥

  -- The world after the requests of these events were handled
  abbrev pub handled : List (Event Request) → W → W
  handled [] w = w
  handled (request r ∷ events) w = handled events (server.handle r w).1
  handled (listening_ended e ∷ events) w = handled events w
  handled (context_done ∷ events) w = w

  -- Until its context ends the server does not return, even when it no longer listens, as with an address
  -- that is taken. When the context ends, it returns what the shutdown gives.
  pub start_server_lem :
      (events after : List (Event Request)) (w : W)
      → IsRunning events
      → (start_server server events w ≡ (none, handled events w))
        × (start_server server (events ++ context_done ∷ after) w ≡ (
          some (shut_down server (handled events w)).0,
          (shut_down server (handled events w)).1,
        ))
  unfolding start_server
  start_server_lem [] after w h = (refl, refl)
  start_server_lem (request r ∷ events) after w h = start_server_lem events after _ h
  start_server_lem (listening_ended e ∷ events) after w h = start_server_lem events after w h
  start_server_lem (context_done ∷ events) after w h = absurd h
