-- ===== src/Worker/Handlers/Retries.antt =====
-- Which failed tasks are tried again.
use estrys.Common.{
  ℕ, ◌==◌, String, Bool-cases, true, false, none, some, Option, ◌≡◌, refl, sym, ap, subst, ◌∙◌, ◌⊎◌,
  inl, inr, arith,
}
use estrys.Outcome.{
  Error, Result, ok, err, panic, skip_retry, wrap, task_error, Action, pure, fail, lift, match_call,
  ◌>>=◌,
}
use estrys.Outcome.Errors.{is_skip_retry, as_task_error, as_error_response, as_inbox_not_accepted}
use estrys.Outcome.Inversion.{run_cases}
use estrys.Outcome.Fallible.{err_injective}
use estrys.Outcome.Fails.{Fails, Fails-pure, Fails-fail, Fails-match_call, Fails-bind}
use estrys.Models.{Url, User, Actor, Tweet}
use estrys.Activity.{Message, VocabLibrary}
use estrys.Ports.{
  Library, UserRepository, ActorRepository, TweetService, ActivityPubClient, VocabService,
}
use estrys.Worker.Tasks.{SendTweetInput, Payload}
use estrys.Worker.Handlers.{
  Decoder, rate_limited_text, skipping, save_error, send_error, judged, error_handler, save_tweet,
  send_note, send_saved, handle_send_tweet,
}

-- The error of a send that is given up
abbrev pub IsGivenUp : Error → Type 0
IsGivenUp e = (cause : Error) × (e ≡ task_error true cause)

-- The error of a send that met Twitter's rate limit
abbrev pub limit_error : Error → Error
limit_error cause = task_error false (wrap rate_limited_text cause)

-- The payload was read, and saving its tweet met Twitter's rate limit.
pub record IsLimited {W : Type 0} (decoder : Decoder) (tweets : TweetService W) (payload : Payload)
    (w : W) : Type 0 where
  pub input : SendTweetInput
  pub is_input : decoder.send_tweet_input payload ≡ ok input
  pub cause : Error
  pub after : W
  pub is_failed : tweets.save_tweet_and_references input.tweet_id w ≡ (err cause, after)
  pub is_limit : as_error_response cause ≡ some 429

skipping-Fails : {W A : Type 0} (text : String) (m : Action W A) → Fails IsGivenUp (skipping text m)
unfolding skipping
skipping-Fails text m =
    Fails-match_call m pure _ Fails-pure (λ why s h. Fails-fail _ (wrap text why, refl))

save_error_lem : (e : Error) → IsGivenUp (save_error e) ⊎ (as_error_response e ≡ some 429)
unfolding save_error
save_error_lem e = go (as_error_response e) refl
  where
    go :
        (r : Option ℕ)
        → as_error_response e ≡ r
        → IsGivenUp (save_error e) ⊎ (as_error_response e ≡ some 429)
    go none h = rw (h, save_error) (inl (wrap "unable to save tweets and references" e, refl))
    go (some status) h = elim (Bool-cases (status == 429)) [
      | inl limit ↦ inr (ground (arith, h, limit))
      | inr other ↦
          rw (h, save_error, other) (inl (wrap "unable to save tweets and references" e, refl))
    ]

save_error_limit : (e : Error) → as_error_response e ≡ some 429 → save_error e ≡ limit_error e
unfolding save_error
save_error_limit e h = rw (h, save_error) refl

send_error-IsGivenUp : (e : Error) → IsGivenUp (send_error e)
unfolding send_error
send_error-IsGivenUp e = go (as_inbox_not_accepted e) refl
  where
    go : (r : Option ℕ) → as_inbox_not_accepted e ≡ r → IsGivenUp (send_error e)
    go none h = rw (h, send_error) (wrap "unable to send create tweet" e, refl)
    go (some status) h = rw (h, send_error) (wrap "post to inbox was not accepted" e, refl)

module _ {W : Type 0} (library : Library) (vocab : VocabLibrary) (decoder : Decoder)
    (service : VocabService) (users : UserRepository W) (actors : ActorRepository W)
    (tweets : TweetService W) (client : ActivityPubClient W) where
  send_saved-Fails :
      (input : SendTweetInput) (saved : Tweet)
      → Fails IsGivenUp
          (send_saved library vocab decoder service users actors tweets client input saved)
  unfolding send_saved send_note
  send_saved-Fails input saved = Fails-bind _ _ (skipping-Fails _ _) λ user.
      Fails-bind _ _ (skipping-Fails _ _) λ actor.
        Fails-bind _ _ (skipping-Fails _ _)
          λ note. Fails-match_call _ _ _ Fails-pure (λ e s h. Fails-fail _ (send_error-IsGivenUp e))

  -- A send whose tweet meets the rate limit ends with the error that says so.
  pub limited_run :
      (payload : Payload) (w : W) (l : IsLimited decoder tweets payload w)
      → (handle_send_tweet library vocab decoder service users actors tweets client payload w).0
        ≡ err (limit_error l.cause)
  unfolding handle_send_tweet skipping save_tweet lift pure fail match_call ◌>>=◌
  limited_run payload w l =
      rw (l.is_input, l.is_failed) (ap err (save_error_limit l.cause l.is_limit))

  saved_cases :
      (payload : Payload) (input : SendTweetInput) (e : Error) (w : W)
      → decoder.send_tweet_input payload ≡ ok input
      → (handle_send_tweet library vocab decoder service users actors tweets client payload w).0
        ≡ err e
      → IsGivenUp e ⊎ IsLimited decoder tweets payload w
  unfolding handle_send_tweet skipping save_tweet lift pure fail match_call ◌>>=◌
  saved_cases payload input e w read h =
      elim (run_cases (tweets.save_tweet_and_references input.tweet_id) w) [
        | inl (tweet, u, found) ↦
            inl ((send_saved-Fails input tweet).at u e (rw found at rw read at h))
        | inr (inl (cause, u, failed)) ↦
            let same : save_error cause ≡ e = err_injective (rw failed at rw read at h) in
            elim (save_error_lem cause) [
              | inl given_up ↦ inl (subst IsGivenUp same given_up)
              | inr limit ↦ inr (record {
                input = input;
                is_input = read;
                cause = cause;
                after = u;
                is_failed = failed;
                is_limit = limit;
              })
            ]
        | inr (inr (why, u, failed)) ↦ cc (rw failed at rw read at h)
      ]

  failure_cases :
      (payload : Payload) (e : Error) (w : W)
      → (handle_send_tweet library vocab decoder service users actors tweets client payload w).0
        ≡ err e
      → IsGivenUp e ⊎ IsLimited decoder tweets payload w
  unfolding handle_send_tweet skipping lift pure fail match_call ◌>>=◌
  failure_cases payload e w h = go (decoder.send_tweet_input payload) refl
    where
      go :
          (r : Result SendTweetInput)
          → decoder.send_tweet_input payload ≡ r
          → IsGivenUp e ⊎ IsLimited decoder tweets payload w
      go (ok input) read = saved_cases payload input e w read h
      go (err why) read =
          inl (wrap "unable to deserialize task input" why, sym (err_injective (rw read at h)))
      go (panic why) read = cc (rw read at h)

  -- A send that fails, and whether it met the rate limit, of which one holds exactly
  pub handle_send_tweet_cases :
      (payload : Payload) (e : Error) (w : W)
      → (handle_send_tweet library vocab decoder service users actors tweets client payload w).0
        ≡ err e
      → (IsGivenUp e × (IsLimited decoder tweets payload w → ⊥))
        ⊎ ((l : IsLimited decoder tweets payload w) × (e ≡ limit_error l.cause))
  handle_send_tweet_cases payload e w h = elim (failure_cases payload e w h) [
    | inl (cause, same) ↦
        inl ((cause, same), λ l. let run = limited_run payload w l in cc (run, h, same))
    | inr l ↦ inr (l, err_injective (sym h ∙ limited_run payload w l))
  ]

  -- A send that fails is given up, unless its payload was read and saving its tweet met Twitter's rate
  -- limit, and is tried again exactly then: the queue is given an error that names the limit.
  pub handle_send_tweet_retries :
      (payload : Payload) (e : Error) (w : W)
      → (error_handler library vocab decoder service users actors tweets client
          (handle_send_tweet library vocab decoder service users actors tweets client)
          payload
          w).0
        ≡ err e
      → ((e ≡ skip_retry) × (IsLimited decoder tweets payload w → ⊥))
        ⊎ ((l : IsLimited decoder tweets payload w) × (e ≡ limit_error l.cause))
  unfolding error_handler match_call pure fail judged as_task_error
  handle_send_tweet_retries payload e w h =
      let m = handle_send_tweet library vocab decoder service users actors tweets client payload in
      elim (run_cases m w) [
        | inl (done, u, run) ↦ cc (rw run at h)
        | inr (inl (why, u, run)) ↦
            let same : judged why ≡ e = err_injective (rw run at h) in
            elim (handle_send_tweet_cases payload why w (ap (λ r. r.0) run)) [
              | inl ((cause, is_task), unlimited) ↦ inl (sym same ∙ rw is_task refl, unlimited)
              | inr (l, is_limit) ↦ inr (l, sym same ∙ rw is_limit refl)
            ]
        | inr (inr (why, u, run)) ↦ cc (rw run at h)
      ]

-- The error is neither the queue's own nor a task error, whatever wraps it, so the task is tried again.
abbrev pub IsRetried : Error → Type 0
IsRetried e = (is_skip_retry e ≡ false) × (as_task_error e ≡ none)

-- The services that answer a follow never return the queue's own error, nor a task error.
pub record IsPlain {W : Type 0} (users : UserRepository W) (actors : ActorRepository W)
    (client : ActivityPubClient W) : Type 0 where
  pub get_plain : (name : String) (w : W) (e : Error) → (users.get name w).0 ≡ err e → IsRetried e
  pub get_actor_plain : (url : Url) (w : W) (e : Error) → (actors.get url w).0 ≡ err e → IsRetried e
  pub post_inbox_plain :
      (actor : Actor) (user : User) (act : Message) (w : W) (e : Error)
      → (client.post_inbox actor user act w).0 ≡ err e
      → IsRetried e
