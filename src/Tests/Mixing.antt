-- ===== src/Tests/Mixing.antt =====
-- The whole system on concrete services: who follows after requests, tasks and ticks.
use estrys.Common.{
  String, str_eq, eq_iff, Bool-cases, false, none, some, List, [], ◌∷◌, All, ◌⊎◌, ◌≡◌, refl, sym,
  ap, ◌∙◌, inl, inr,
}
use estrys.Outcome.{ok, no_rows, pure, fail}
use estrys.Outcome.Keeps.{Keeps}
use estrys.Outcome.Fallible.{ok_injective}
use estrys.Models.{Url, Actor}
use estrys.Ports.{Database}
use estrys.Worker.Tasks.{Payload}
use estrys.Worker.Broker.{TaskHandler}
use estrys.Worker.Broker.Laws.{entry_of}
use estrys.Poller.{State}
use estrys.System.{Program, serve_inbox, work, after, poll, inbox, tick, task, here, later}
use estrys.System.Guarded.{IsGuardedServices}
use estrys.System.Granted.{PrintsUrls}
use estrys.System.Stored.{stored}
use estrys.System.Followers.{OnlyEntitled, IsFollowerTable, follower_entitled}
use estrys.Tests.Services.{
  World, alice, bob, row_named, actors, with_alice, alice_url, bob_url, parser, printer, users,
  keys, worker, twitter, tweets,
}
use estrys.Tests.Serving.{resolver, pages}
use estrys.Tests.Working.{decoder, service, accepting}
use estrys.Tests.Broker.{processed, mux, accept_task}
use estrys.Tests.Routing.{signed}

-- The tables of users and of followers, and a table of actors that takes each row and finds none
abbrev database : Database World
database = record {
  user_by_id = λ id. fail no_rows;
  user_by_username = λ name w. (row_named name w.rows, w);
  insert_user = λ row w. (ok tt, record w { rows = row ∷ w.rows });
  add_actors =
      λ user actor w. (ok tt, record w { followers = (user.username, actor.url) ∷ w.followers });
  remove_actors = λ user actor w. (ok tt, record w { followers = [] });
  users_join_followers = pure (some (alice ∷ []));
  actors_of = λ user. pure (bob ∷ []);
  actor_by_url = λ url. fail no_rows;
  insert_actor = λ row. pure tt;
  new_uuid = pure "2";
}

abbrev services : Program World
services = record {
  library = parser;
  vocab = printer;
  twitter = twitter;
  users = users;
  actors = actors;
  tweets = tweets;
  keys = keys;
  worker = worker;
  client = accepting;
  vocab_service = service;
  pages = pages;
  resolver = resolver;
  decoder = decoder;
  mux = mux;
  allowed_users = "@bob@far" ∷ [];
  domain = alice_url;
  disable_http_signature_verify = false;
  trace_id = "t";
}

abbrev program : Program World
program = stored services database

-- A row of the table of followers
abbrev IsIn : String → String → List (String × String) → Type 0
IsIn name url [] = ⊥
IsIn name url ((name', url') ∷ rows) = ((name ≡ name') × (url ≡ url')) ⊎ IsIn name url rows

abbrev Follows : String → Actor → World → Type 0
Follows name actor w = IsIn name actor.url w.followers

never :
    (url : String) (row : Actor) (w u : World)
    → database.actor_by_url url w ≡ (ok row, u)
    → row.url ≡ url
unfolding fail
never url row w u h = cc h

printed : (s : String) (found : Url) → parser.parse_url s ≡ ok found → parser.url_string found ≡ s
printed s found h = elim (Bool-cases (str_eq s "https://here/users/alice")) [
  | inl alice ↦ named alice_url (rw alice at h) ∙ sym ((eq_iff _ _).0 alice)
  | inr other ↦ elim (Bool-cases (str_eq s "https://far/users/bob")) [
    | inl bob ↦ named bob_url (rw bob at rw other at h) ∙ sym ((eq_iff _ _).0 bob)
    | inr unknown ↦ cc (rw unknown at rw other at h)
  ]
]
  where
    named : (url : Url) → ok url ≡ ok found → parser.url_string found ≡ parser.url_string url
    named url e = ap parser.url_string (sym (ok_injective e))

urls : PrintsUrls parser printer
urls = record {
  serialized = λ url. refl;
  parsed = λ url found h. printed (parser.url_string url) found h;
}

table : IsFollowerTable Follows database
unfolding pure fail
table = record {
  add_actors = λ user added name actor w f. elim f [ inl new ↦ inr new | inr before ↦ inl before ];
  user_by_id = λ id. record { at = λ name actor w f. f };
  user_by_username = λ name. record { at = λ name actor w f. f };
  insert_user = λ row. record { at = λ name actor w f. f };
  remove_actors = λ user actor. record { at = λ name actor w f. absurd f };
  users_join_followers = record { at = λ name actor w f. f };
  actors_of = λ user. record { at = λ name actor w f. f };
  actor_by_url = λ url. record { at = λ name actor w f. f };
  insert_actor = λ row. record { at = λ name actor w f. f };
  new_uuid = record { at = λ name actor w f. f };
}

calls : IsGuardedServices program (OnlyEntitled Follows services)
unfolding pure fail
calls = record {
  get_tweet = λ id. record { at = λ w h. h };
  store = λ t. record { at = λ w h. h };
  generate_key = record { at = λ w h. h };
  fetch_key = λ id. record { at = λ w h. h };
  enqueue = λ t. record { at = λ w h. h };
  post_inbox = λ to from act. record { at = λ w h. h };
  get_user_tweets = λ id start. record { at = λ w h. h };
  get_tweets = λ ids. record { at = λ w h. h };
  get_user = λ name. record { at = λ w h. h };
  get_user_by_ids = λ ids. record { at = λ w h. h };
  resolve = λ on_follow on_undo on_delete json follows undoes deletes. follows json;
  process_task = λ handlers t keep. process (t.kind) handlers t.payload keep;
}
  where
    process :
        (name : String) (handlers : List (String × TaskHandler World)) (payload : Payload)
        → All
            (λ entry. (given : Payload) → Keeps (OnlyEntitled Follows services) (entry.1 given))
            handlers
        → Keeps (OnlyEntitled Follows services) (processed (entry_of name handlers) payload)
    process name [] payload keep = record { at = λ w h. h }
    process name ((key, handler) ∷ handlers) payload (first, rest) =
        elim (Bool-cases (str_eq key name)) [
          | inl same ↦ rw same (first payload)
          | inr other ↦ rw other (process name handlers payload rest)
        ]

abbrev start : State World
start = record {
  poller = record { users = none; user_cursors = []; user_index = 0; start = 7 };
  world = with_alice;
}

abbrev asked : State World
asked = after program (serve_inbox program false signed "alice" "follow") start

abbrev answered : State World
answered = after program (work program accept_task) asked

follower_entitled_example : OnlyEntitled Follows services (poll program answered).1.world
follower_entitled_example =
    follower_entitled Follows services database table never urls calls
      (later (later (later here (inbox false signed "alice" "follow")) (task accept_task)) tick)
      λ name actor f. absurd f
