-- ===== src/Tests/Broker.antt =====
-- The worker carries out a queued answer, on concrete services.
use estrys.Tests.Services.{texts}
use estrys.Common.{
  String, str_eq, eq_iff, Bool-cases, if◌then◌else◌, Option, none, some, [], ◌∷◌, ◌≡◌, refl, ap,
  inl, inr, to_lower, arith,
}
use estrys.Outcome.{Result, ok, err, message, Action, pure, fail, lift, wrapping, match_call, ◌>>=◌}
use estrys.Models.{Url}
use estrys.Activity.{Property, iri, embedded, Follow, VocabLibrary}
use estrys.Worker.Tasks.{
  Payload, answer_follow, send_tweet, FollowInput, Task, new_accept_follow_task,
}
use estrys.Worker.Handlers.{
  Decoder, stating, accept_error, judged, error_handler, handle_accept_follow,
}
use estrys.Worker.Handlers.Delivery.{Answered}
use estrys.Worker.Broker.{TaskHandler, ServeMux, tracing_handler, registered, carry_out}
use estrys.Worker.Broker.Laws.{entry_of, IsServeMux, IsDecoder, carry_out-new_accept_follow_task}
use estrys.Domain.Inbox.{get_actor_url}
use estrys.Tests.Services.{World, bob_url, with_alice, parser, printer, users}
use estrys.Tests.Working.{send, known_actors, limited, service, accepting}

-- A multiplexer, and a task of an unknown type
abbrev pub processed : {W : Type 0} → Option (TaskHandler W) → Payload → Action W (Unit {0})
processed none payload w = (err (message "handler not found"), w)
processed (some handler) payload w = handler payload w

abbrev pub mux : ServeMux World
mux = record {
  process_task = λ handlers task. processed (entry_of task.kind handlers) task.payload;
}

pub mux-IsServeMux : IsServeMux mux
mux-IsServeMux = record { process_registered = λ handlers task handler w h. rw h refl }

-- A codec of one follow
abbrev bob_follow : Follow
bob_follow = record { actor = some (iri bob_url ∷ []); object = none }

abbrev unknown : Result String
unknown = err (message "unknown follow")

abbrev bob_text : Url → Result String
bob_text url =
    if str_eq url.scheme "https"
    then if str_eq url.host "far"
      then if str_eq url.path "/users/bob" then ok "bob" else unknown
      else unknown
    else unknown

abbrev coded : Option Property → Option Property → Result String
coded (some (iri url ∷ [])) none = bob_text url
coded _ _ = unknown

abbrev coder : VocabLibrary
coder = record printer { serialize_follow = λ act. coded act.actor act.object }

abbrev follow_input_of : Payload → Result FollowInput
follow_input_of (answer_follow input) = ok input
follow_input_of (send_tweet input) = err (message "another input")

abbrev exact_decoder : Decoder
exact_decoder = record {
  texts = texts;
  send_tweet_input = λ payload. ok send;
  follow_input = follow_input_of;
  new_json_resolver = ok tt;
  resolve = λ s. ok bob_follow;
}

bob_url_of : (url : Url) (s : String) → bob_text url ≡ ok s → bob_url ≡ url
bob_url_of url s h = elim (Bool-cases (str_eq url.scheme "https")) [
  | inr other ↦ cc (rw other at h)
  | inl scheme ↦ elim (Bool-cases (str_eq url.host "far")) [
    | inr other ↦ cc (rw other at rw scheme at h)
    | inl host ↦ elim (Bool-cases (str_eq url.path "/users/bob")) [
      | inr other ↦ cc (rw other at rw host at rw scheme at h)
      | inl path ↦ go ((eq_iff _ _).0 scheme) ((eq_iff _ _).0 host) ((eq_iff _ _).0 path)
    ]
  ]
]
  where
    go : url.scheme ≡ "https" → url.host ≡ "far" → url.path ≡ "/users/bob" → bob_url ≡ url
    go a b c = ground (arith, a, b, c)

decoded :
    (a o : Option Property) (s : String)
    → coded a o ≡ ok s
    → ok bob_follow ≡ ok (record { actor = a; object = o })
decoded (some (iri url ∷ [])) none s h =
    ap (λ u. ok (record { actor = some (iri u ∷ []); object = none })) (bob_url_of url s h)
decoded none o s h = cc h
decoded (some []) o s h = cc h
decoded (some (embedded kind ∷ items)) o s h = cc h
decoded (some (iri url ∷ item ∷ items)) o s h = cc h
decoded (some (iri url ∷ [])) (some p) s h = cc h

exact : IsDecoder coder exact_decoder
exact = record {
  follow_input_payload = λ input. refl;
  resolve_serialized = λ act s h. decoded act.actor act.object s h;
}

abbrev accept_input : FollowInput
accept_input = record { trace_id = "t"; username = "alice"; activity = "bob" }

abbrev pub accept_task : Task
accept_task = record {
  kind = "inbox:follow:accept";
  payload = answer_follow accept_input;
  max_retry = 5;
  timeout = 30;
  queue = "follows";
  retention = 86400;
}

carry_out-new_accept_follow_task_example :
    (a : Answered parser coder exact_decoder service users known_actors limited accepting
      service.get_accept accept_task.payload with_alice with_alice)
    × (a.act ≡ bob_follow)
    × (a.input.username ≡ "alice")
unfolding pure fail lift wrapping match_call ◌>>=◌ stating accept_error judged error_handler
    estrys.Worker.Handlers.answer_follow handle_accept_follow tracing_handler registered carry_out
    get_actor_url new_accept_follow_task to_lower
carry_out-new_accept_follow_task_example =
    carry_out-new_accept_follow_task parser coder exact_decoder service users known_actors limited
      accepting mux mux-IsServeMux exact "t" "alice" bob_follow accept_task with_alice with_alice
      refl refl
