-- ===== src/System/Guarded/Tasks.antt =====
-- Carrying out a task keeps what the services keep.
use estrys.Common.{String}
use estrys.Outcome.{Error, Result, ok, err, panic, Action, pure, fail, match_call, ◌>>=◌}
use estrys.Outcome.Texts.{LibraryTexts}
use estrys.Outcome.Keeps.{
  Keeps, Keeps-pure, Keeps-fail, Keeps-match_call, Keeps-lift, Keeps-wrapping, Keeps-bind,
  keeps_rules,
}
use estrys.Models.{Url, User, Actor}
use estrys.Activity.{Follow, Message}
use estrys.Worker.Tasks.{Payload, Task}
use estrys.Worker.Handlers.{
  skipping, stating, error_handler, save_tweet, actor_of, send_note, send_saved, handle_send_tweet,
  answer_follow, handle_accept_follow, handle_reject_follow,
}
use estrys.Worker.Broker.{TaskHandler, tracing_handler, registered, carry_out}
use estrys.System.{Program, tweet_service, work}
use estrys.System.Guarded.{IsGuarded}
use estrys.System.Guarded.Tweets.{save_tweet_and_references-Keeps}

module _ {W A : Type 0} {P : W → Type 0} (m : Action W A) where
  skipping-Keeps : (text : String) → Keeps P m → Keeps P (skipping text m)
  unfolding skipping
  skipping-Keeps text k = search keeps_rules

  stating-Keeps :
      (texts : LibraryTexts) (text : String) → Keeps P m → Keeps P (stating texts text m)
  unfolding stating
  stating-Keeps texts text k = search keeps_rules

module _ {W : Type 0} (p : Program W) {P : W → Type 0} {Entitled : Actor → Type 0}
    (guarded : IsGuarded p P Entitled) where
  save_tweet-Keeps :
      (id : String)
      → Keeps P (
          save_tweet p.library p.vocab p.decoder p.vocab_service p.users p.actors
            (tweet_service p)
            p.client
            id)
  unfolding save_tweet estrys.Domain.Tweets.new_tweet_service
  save_tweet-Keeps id = search (keeps_rules, save_tweet_and_references-Keeps p guarded)

  actor_of-Keeps :
      (url : Result Url)
      → Keeps P (
          actor_of p.library p.vocab p.decoder p.vocab_service p.users p.actors
            (tweet_service p)
            p.client
            url)
  unfolding actor_of estrys.Outcome.crash
  actor_of-Keeps (ok url) = guarded.get_actor url
  actor_of-Keeps (err e) = record { at = λ w h. h }
  actor_of-Keeps (panic why) = record { at = λ w h. h }

  handle_send_tweet-Keeps :
      (payload : Payload)
      → Keeps P (
          handle_send_tweet p.library p.vocab p.decoder p.vocab_service p.users p.actors
            (tweet_service p)
            p.client
            payload)
  unfolding handle_send_tweet send_saved send_note ◌>>=◌
  handle_send_tweet-Keeps payload =
      search
        (
          keeps_rules, skipping-Keeps, save_tweet-Keeps, actor_of-Keeps, guarded.get,
          guarded.services.post_inbox,
        )
        depth 16

  posted-Keeps :
      (actor : Actor) (user : User) (reply : Message) (judge : Error → Error)
      → Keeps P (match_call (p.client.post_inbox actor user reply) pure (λ e. fail (judge e)))
  posted-Keeps actor user reply judge = search (keeps_rules, guarded.services.post_inbox)

  answer_follow-Keeps :
      (text : String) (build : User → Follow → Result Message) (judge : Error → Error)
      (payload : Payload)
      → Keeps P (
          answer_follow p.library p.vocab p.decoder p.vocab_service p.users p.actors
            (tweet_service p)
            p.client
            text
            build
            judge
            payload)
  unfolding answer_follow
  answer_follow-Keeps text build judge payload =
      Keeps-bind _ _ (stating-Keeps _ _ _ (Keeps-lift _)) λ input.
        Keeps-bind _ _ (stating-Keeps _ _ _ (Keeps-lift _)) λ _.
          Keeps-bind _ _ (stating-Keeps _ _ _ (Keeps-lift _)) λ act.
            Keeps-bind _ _ (Keeps-wrapping _ _ (guarded.get _)) λ user.
              Keeps-bind _ _ (stating-Keeps _ _ _ (Keeps-lift _)) λ url.
                Keeps-bind _ _ (Keeps-wrapping _ _ (guarded.get_actor url)) λ actor.
                  Keeps-bind _ _ (stating-Keeps _ _ _ (Keeps-lift _))
                    λ reply. posted-Keeps actor user reply judge

  handled-Keeps :
      (handler : TaskHandler W)
      → ((payload : Payload) → Keeps P (handler payload))
      → (payload : Payload)
      → Keeps P (
          error_handler p.library p.vocab p.decoder p.vocab_service p.users p.actors
            (tweet_service p)
            p.client
            (tracing_handler handler)
            payload)
  unfolding error_handler tracing_handler
  handled-Keeps handler keeps payload =
      Keeps-match_call _ _ _ (keeps payload) Keeps-pure (λ e. Keeps-fail _)

  pub work-Keeps : (task : Task) → Keeps P (work p task)
  unfolding work carry_out registered handle_accept_follow handle_reject_follow
  work-Keeps task = guarded.services.process_task _ task (
    handled-Keeps _ (answer_follow-Keeps _ _ _),
    (handled-Keeps _ (answer_follow-Keeps _ _ _), (handled-Keeps _ handle_send_tweet-Keeps, tt)),
  )
