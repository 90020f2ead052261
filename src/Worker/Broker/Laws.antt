-- ===== src/Worker/Broker/Laws.antt =====
-- What a queued task that was carried out has done.
use estrys.Common.{
  String, str_eq, if◌then◌else◌, Option, none, some, List, [], ◌∷◌, ◌≡◌, refl, sym, ap, ◌∙◌, subst,
}
use estrys.Outcome.{Result, ok, err, panic}
use estrys.Outcome.Fallible.{ok_injective}
use estrys.Outcome.Inversion.{replacing_ok}
use estrys.Models.{User, Actor}
use estrys.Activity.{Follow, Message, VocabLibrary}
use estrys.Ports.{
  Library, UserRepository, ActorRepository, TweetService, ActivityPubClient, VocabService,
}
use estrys.Worker.Tasks.{
  FollowInput, answer_follow, Task, new_send_tweet, new_accept_follow_task, new_reject_follow_task,
  type_accept_follow, type_reject_follow,
}
use estrys.Worker.Handlers.{
  Decoder, error_handler, judged, handle_accept_follow, handle_reject_follow, handle_send_tweet,
}
use estrys.Worker.Handlers.Delivery.{
  Answered, Delivered, handle_accept_follow_ok, handle_reject_follow_ok, handle_send_tweet_ok,
}
use estrys.Worker.Broker.{TaskHandler, ServeMux, tracing_handler, registered, carry_out}

-- The first entry of a name
abbrev pub entry_of {ℓ} : {A : Type ℓ} → String → List (String × A) → Option A
entry_of name [] = none
entry_of name ((key, a) ∷ entries) =
    let rest = entry_of name entries in if str_eq key name then some a else rest

-- A task of a registered type is given to its handler.
pub record IsServeMux {W : Type 0} (mux : ServeMux W) : Type 0 where
  pub process_registered :
      (handlers : List (String × TaskHandler W)) (task : Task) (handler : TaskHandler W) (w : W)
      → entry_of task.kind handlers ≡ some handler
      → mux.process_task handlers task w ≡ handler task.payload w

-- Decoding undoes encoding, for the payload of an answer and for the follow that it holds.
pub record IsDecoder (vocab : VocabLibrary) (decoder : Decoder) : Type 0 where
  pub follow_input_payload :
      (input : FollowInput) → decoder.follow_input (answer_follow input) ≡ ok input
  pub resolve_serialized :
      (act : Follow) (s : String) → vocab.serialize_follow act ≡ ok s → decoder.resolve s ≡ ok act

module _ {W : Type 0} (library : Library) (vocab : VocabLibrary) (decoder : Decoder)
    (service : VocabService) (users : UserRepository W) (actors : ActorRepository W)
    (tweets : TweetService W) (client : ActivityPubClient W) (mux : ServeMux W)
    (is : IsServeMux mux) where
  pub carried_out :
      (handler : TaskHandler W) (task : Task) (w u : W)
      → entry_of task.kind (registered library vocab decoder service users actors tweets client)
        ≡ some (
            error_handler library vocab decoder service users actors tweets client
              (tracing_handler handler))
      → carry_out library vocab decoder service users actors tweets client mux task w ≡ (ok tt, u)
      → handler task.payload w ≡ (ok tt, u)
  unfolding carry_out error_handler tracing_handler
  carried_out handler task w u entry h =
      replacing_ok _ judged w (sym (is.process_registered _ task _ w entry) ∙ h)

  -- Where the multiplexer gives a task of a registered type to its handler, a task that the poller queues
  -- and that the worker carries out without an error has saved the tweet and posted its note.
  pub carry_out-new_send_tweet :
      (trace_id : String) (user : User) (actor : Actor) (tweet_id : String) (w u : W)
      → carry_out library vocab decoder service users actors tweets client mux
          (new_send_tweet trace_id user actor tweet_id)
          w
        ≡ (ok tt, u)
      → Delivered library vocab decoder service users actors tweets client
          (new_send_tweet trace_id user actor tweet_id).payload
          w
          u
  unfolding registered new_send_tweet
  carry_out-new_send_tweet trace_id user actor tweet_id w u h =
      handle_send_tweet_ok _ _ _ _ _ _ _ _ _ w u (
        carried_out (handle_send_tweet library vocab decoder service users actors tweets client)
          (new_send_tweet trace_id user actor tweet_id) w u refl h)

  -- What the task of an answer to a follow is: its type, and what its payload decodes to
  IsMade : String → String → Follow → Task → Type 0
  IsMade kind username act task =
      (task.kind ≡ kind)
      × ((input : FollowInput) × (decoder.follow_input task.payload ≡ ok input)
          × (input.username ≡ username)
          × (decoder.resolve input.activity ≡ ok act))

  is_kind :
      (kind username : String) (act : Follow) (task : Task)
      → IsMade kind username act task
      → task.kind ≡ kind
  unfolding IsMade
  is_kind kind username act task h = h.0

  accept-IsMade :
      (decodes : IsDecoder vocab decoder) (trace_id username : String) (act : Follow) (task : Task)
      (r : Result String)
      → vocab.serialize_follow act ≡ r
      → new_accept_follow_task vocab trace_id username act ≡ ok task
      → IsMade type_accept_follow username act task
  unfolding new_accept_follow_task IsMade
  accept-IsMade decodes trace_id username act task (ok s) e h =
      subst (IsMade type_accept_follow username act)
        (ok_injective (rw (e, new_accept_follow_task) at h))
        (refl, (_, decodes.follow_input_payload _, refl, decodes.resolve_serialized act s e))
  accept-IsMade decodes trace_id username act task (err why) e h =
      cc (rw (e, new_accept_follow_task) at h)
  accept-IsMade decodes trace_id username act task (panic why) e h =
      cc (rw (e, new_accept_follow_task) at h)

  reject-IsMade :
      (decodes : IsDecoder vocab decoder) (trace_id username : String) (act : Follow) (task : Task)
      (r : Result String)
      → vocab.serialize_follow act ≡ r
      → new_reject_follow_task vocab trace_id username act ≡ ok task
      → IsMade type_reject_follow username act task
  unfolding new_reject_follow_task IsMade
  reject-IsMade decodes trace_id username act task (ok s) e h =
      subst (IsMade type_reject_follow username act)
        (ok_injective (rw (e, new_reject_follow_task) at h))
        (refl, (_, decodes.follow_input_payload _, refl, decodes.resolve_serialized act s e))
  reject-IsMade decodes trace_id username act task (err why) e h =
      cc (rw (e, new_reject_follow_task) at h)
  reject-IsMade decodes trace_id username act task (panic why) e h =
      cc (rw (e, new_reject_follow_task) at h)

  Answered-same :
      (build : User → Follow → Result Message) (kind username : String) (act : Follow) (task : Task)
      (w u : W)
      (a : Answered library vocab decoder service users actors tweets client build task.payload w u)
      → IsMade kind username act task
      → (a.act ≡ act) × (a.input.username ≡ username)
  unfolding IsMade
  Answered-same build kind username act task w u a (_, (input, is_input, is_username, is_act)) =
      let same = ok_injective (sym a.is_input ∙ is_input) in
      (
        ok_injective (sym a.is_act ∙ ap (λ i. decoder.resolve i.activity) same ∙ is_act),
        ap (λ i. i.username) same ∙ is_username,
      )

  -- Where the multiplexer gives a task of a registered type to its handler, and decoding undoes encoding,
  -- the task that is queued for a follow that was granted, once it is carried out without an error, has
  -- posted the acceptance of that follow for the user that was followed.
  pub carry_out-new_accept_follow_task :
      (decodes : IsDecoder vocab decoder) (trace_id username : String) (act : Follow) (task : Task)
      (w u : W)
      → new_accept_follow_task vocab trace_id username act ≡ ok task
      → carry_out library vocab decoder service users actors tweets client mux task w ≡ (ok tt, u)
      → (a : Answered library vocab decoder service users actors tweets client service.get_accept
          task.payload w u)
        × (a.act ≡ act)
        × (a.input.username ≡ username)
  unfolding registered
  carry_out-new_accept_follow_task decodes trace_id username act task w u made h =
      let is_made =
        accept-IsMade decodes trace_id username act task (vocab.serialize_follow act) refl made in
      let run =
        carried_out (handle_accept_follow library vocab decoder service users actors tweets client)
          task w u (rw (is_kind _ _ _ _ is_made) refl) h in
      let a = handle_accept_follow_ok _ _ _ _ _ _ _ _ task.payload w u run in
      let (same_act, same_name) = Answered-same _ _ username act task w u a is_made in
      (a, same_act, same_name)

  -- Under the same conditions, the task that is queued for a follow that was not granted, once it is
  -- carried out without an error, has posted the rejection of that follow.
  pub carry_out-new_reject_follow_task :
      (decodes : IsDecoder vocab decoder) (trace_id username : String) (act : Follow) (task : Task)
      (w u : W)
      → new_reject_follow_task vocab trace_id username act ≡ ok task
      → carry_out library vocab decoder service users actors tweets client mux task w ≡ (ok tt, u)
      → (a : Answered library vocab decoder service users actors tweets client service.get_reject
          task.payload w u)
        × (a.act ≡ act)
        × (a.input.username ≡ username)
  unfolding registered
  carry_out-new_reject_follow_task decodes trace_id username act task w u made h =
      let is_made =
        reject-IsMade decodes trace_id username act task (vocab.serialize_follow act) refl made in
      let run =
        carried_out (handle_reject_follow library vocab decoder service users actors tweets client)
          task w u (rw (is_kind _ _ _ _ is_made) refl) h in
      let a = handle_reject_follow_ok _ _ _ _ _ _ _ _ task.payload w u run in
      let (same_act, same_name) = Answered-same _ _ username act task w u a is_made in
      (a, same_act, same_name)
