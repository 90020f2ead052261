-- ===== src/Tests/Repeating.antt =====
-- A follow request that is repeated, over a table of followers that refuses what it holds.
use estrys.Common.{String, str_eq, Bool, false, true, ◌&&◌, ◌||◌, List, [], ◌∷◌, ◌≡◌, refl}
use estrys.Outcome.{Error, ok, err, message, wrap, Action, pure}
use estrys.Ports.{UserRepository}
use estrys.Domain.Inbox.{follow}
use estrys.Domain.Inbox.Repeats.{IsHeld, follow_held}
use estrys.Tests.Services.{
  World, alice, alice_url, bob, bob_url, parser, printer, users, keys, worker,
}
use estrys.Tests.Following.{granting, following, allowed, request}
use estrys.Tests.Working.{known_actors}

abbrev holds_pair : String → String → List (String × String) → Bool
holds_pair name url [] = false
holds_pair name url ((n, u) ∷ pairs) =
    let rest = holds_pair name url pairs in (str_eq n name && str_eq u url) || rest

abbrev inserted : Bool → String × String → Action World (Unit {0})
inserted true pair w = (err (message "duplicate key"), w)
inserted false pair w = (ok tt, record w { followers = pair ∷ w.followers })

-- The table's key is the pair.
abbrev keyed_users : UserRepository World
keyed_users = record users {
  follow = λ user actor w.
      inserted (holds_pair user.username actor.url w.followers) (user.username, actor.url) w;
}

abbrev BobFollows : World → Type 0
BobFollows w = (w.rows ≡ alice ∷ []) × (w.followers ≡ ("alice", "https://far/users/bob") ∷ [])

held : IsHeld keyed_users known_actors "alice" bob_url alice bob BobFollows
unfolding pure following
held = record {
  finds_user = λ w h. (w, rw h.0 refl, h);
  finds_actor = λ w h. (w, refl, h);
  refuses = λ w h. (message "duplicate key", w, rw h.1 refl, h);
}

abbrev bob_follows : World
bob_follows = record {
  queue = [];
  requests = 0;
  rows = alice ∷ [];
  followers = ("alice", "https://far/users/bob") ∷ [];
}

follow_held_example :
    (e : Error) × (before u : World) × (keyed_users.follow alice bob before ≡ (err e, u))
    × (follow parser printer known_actors keyed_users keys worker allowed alice_url "t" request
          bob_follows
        ≡ (err (wrap "unable to follow actor" e), u))
    × BobFollows u
unfolding granting following
follow_held_example =
    follow_held parser printer known_actors keyed_users keys worker allowed alice_url "t" request
      alice_url bob_url alice bob BobFollows bob_follows held refl refl refl refl (refl, refl)
