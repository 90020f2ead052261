-- ===== src/System/Guarded/Requests.antt =====
-- The requests that the server answers keep what the services keep, where a follower is written only for
-- an actor that is entitled.
use estrys.Common.{String, Bool, List, [], ◌∷◌, Option, none, some}
use estrys.Outcome.{Result, ok, err, panic, Action, fail, ◌>>=◌}
use estrys.Outcome.Keeps.{
  Keeps, Keeps-crash, Keeps-pure, Keeps-fail, Keeps-lift, Keeps-if, Keeps-match_call, keeps_rules,
}
use estrys.Models.{Url, Actor, FullUser, Tweet}
use estrys.Activity.{Follow, Undo, UndoItem, follow_item, other_item}
use estrys.Domain.Inbox.{
  get_user_from_url, followed_user, create_actor, create_actor_if_no_exist, un_follow_user,
  un_follow_object, un_follow, new_inbox_service,
}
use estrys.Web.{
  Reply, or_refuse, handle_page, handle_signed, handle_inbox, http_error_handler, answering,
}
use estrys.Web.Signature.{
  Verifier, SignedRequest, serve_verified, verify_with, with_verifier, http_sig_middleware,
  inbox_route,
}
use estrys.System.{
  Program, voters, inbox_service, user_service, serve_inbox, serve_page, serve_status,
  serve_web_finger,
}
use estrys.Web.Status.{
  StatusPage, Execution, render, render_retweet, show, show_found, fetch, handle_status,
}
use estrys.Web.Finger.{find, find_address, find_resource, handle_web_finger}
use estrys.System.Guarded.{IsGuarded, get_full_user-Keeps}

module _ {W A : Type 0} {P : W → Type 0} (disabled : Bool) (keys : estrys.Ports.KeyManager W)
    (next : Option Bool → Action W A) (fetches : (id : String) → Keeps P (keys.fetch_key id))
    (serves : (signed : Option Bool) → Keeps P (next signed)) where
  serve_verified-Keeps : (r : Result (Unit {0})) → Keeps P (serve_verified disabled keys next r)
  unfolding serve_verified estrys.Outcome.crash
  serve_verified-Keeps (ok done) = serves _
  serve_verified-Keeps (err e) = serves _
  serve_verified-Keeps (panic why) = record { at = λ w h. h }

  with_verifier-Keeps : (r : Result Verifier) → Keeps P (with_verifier disabled keys next r)
  unfolding with_verifier verify_with estrys.Outcome.crash
  with_verifier-Keeps (ok verifier) =
      Keeps-match_call _ _ _ (fetches _) (λ key. serve_verified-Keeps _) (λ e. serves _)
  with_verifier-Keeps (err e) = serves _
  with_verifier-Keeps (panic why) = record { at = λ w h. h }

  http_sig_middleware-Keeps :
      (request : SignedRequest) → Keeps P (http_sig_middleware disabled keys next request)
  unfolding http_sig_middleware
  http_sig_middleware-Keeps request = search (keeps_rules, serves, with_verifier-Keeps)

module _ {W : Type 0} {P : W → Type 0} where
  http_error_handler-Keeps :
      (hub : Bool) (handler : Action W Reply)
      → Keeps P handler
      → Keeps P (http_error_handler hub handler)
  unfolding http_error_handler answering
  http_error_handler-Keeps hub handler k = record {
    at = (Keeps-match_call _ _ _ k (λ reply. Keeps-pure _) Keeps-fail).at;
  }

module _ {W : Type 0} (p : Program W) {P : W → Type 0} {Entitled : Actor → Type 0}
    (guarded : IsGuarded p P Entitled) where
  get_user_from_url-Keeps :
      (url : Url)
      → Keeps P (
          get_user_from_url p.library p.vocab p.actors p.users p.keys p.worker
            (voters p)
            p.domain
            p.trace_id
            url)
  unfolding get_user_from_url
  get_user_from_url-Keeps url = guarded.get _

  pub followed_user-Keeps :
      (url : Url)
      → Keeps P (
          followed_user p.library p.vocab p.actors p.users p.keys p.worker
            (voters p)
            p.domain
            p.trace_id
            url)
  unfolding followed_user
  followed_user-Keeps url = search (keeps_rules, get_user_from_url-Keeps)

  pub create_actor_if_no_exist-Keeps :
      (url : Url)
      → Keeps P (
          create_actor_if_no_exist p.library p.vocab p.actors p.users p.keys p.worker
            (voters p)
            p.domain
            p.trace_id
            url)
  unfolding create_actor_if_no_exist create_actor ◌>>=◌
  create_actor_if_no_exist-Keeps url =
      search (keeps_rules, guarded.get_actor, guarded.services.fetch_key, guarded.create_actor)
        depth 10

  un_follow_object-Keeps :
      (object : Option (List UndoItem)) (url : Url)
      → Keeps P (
          un_follow_object p.library p.vocab p.actors p.users p.keys p.worker
            (voters p)
            p.domain
            p.trace_id
            object
            url)
  unfolding un_follow_object un_follow_user estrys.Outcome.crash ◌>>=◌
  un_follow_object-Keeps none url = record { at = λ s h. h }
  un_follow_object-Keeps (some (follow_item act ∷ [])) url =
      search
        (keeps_rules, get_user_from_url-Keeps, create_actor_if_no_exist-Keeps, guarded.un_follow)
        depth 10
  un_follow_object-Keeps (some (other_item kind ∷ [])) url = Keeps-fail _
  un_follow_object-Keeps (some []) url = Keeps-pure tt
  un_follow_object-Keeps (some (follow_item act ∷ b ∷ items)) url = Keeps-pure tt
  un_follow_object-Keeps (some (other_item kind ∷ b ∷ items)) url = Keeps-pure tt

  pub un_follow-Keeps :
      (act : Undo)
      → Keeps P (
          un_follow p.library p.vocab p.actors p.users p.keys p.worker
            (voters p)
            p.domain
            p.trace_id
            act)
  unfolding un_follow ◌>>=◌
  un_follow-Keeps act = search (keeps_rules, un_follow_object-Keeps)

  pub serve_page-Keeps :
      (hub : Bool) (get : FullUser → Result p.pages.Document) (username : String)
      → Keeps P (serve_page p hub get username)
  unfolding serve_page handle_page or_refuse estrys.Domain.Users.new_user_service
  serve_page-Keeps hub get username =
      http_error_handler-Keeps hub _ (search (keeps_rules, get_full_user-Keeps p guarded) depth 10)

  render_retweet-Keeps :
      (status_url : String → String → Result Url) (execute : StatusPage → Execution)
      (shown : StatusPage) (original : Option Tweet)
      → Keeps P (render_retweet p.tweets (user_service p) status_url execute shown original)
  unfolding render_retweet render estrys.Domain.Users.new_user_service
  render_retweet-Keeps status_url execute shown none = Keeps-pure _
  render_retweet-Keeps status_url execute shown (some t) =
      search (keeps_rules, get_full_user-Keeps p guarded)

  show_found-Keeps :
      (status_url : String → String → Result Url) (execute : StatusPage → Execution)
      (username id : String) (found : Option Tweet)
      → Keeps P (show_found p.tweets (user_service p) status_url execute username id found)
  unfolding show_found show or_refuse estrys.Domain.Users.new_user_service
  show_found-Keeps status_url execute username id none = Keeps-crash _
  show_found-Keeps status_url execute username id (some t) =
      search (keeps_rules, render_retweet-Keeps, get_full_user-Keeps p guarded) depth 10

  pub serve_status-Keeps :
      (hub : Bool) (status_url : String → String → Result Url) (execute : StatusPage → Execution)
      (username id : String)
      → Keeps P (serve_status p hub status_url execute username id)
  unfolding serve_status handle_status fetch or_refuse
  serve_status-Keeps hub status_url execute username id =
      http_error_handler-Keeps hub _
        (search (keeps_rules, show_found-Keeps, guarded.services.get_tweet) depth 10)

  find_address-Keeps :
      (render : FullUser → String) (parts : List String)
      → Keeps P (find_address (user_service p) p.domain.host render parts)
  unfolding find_address find or_refuse estrys.Domain.Users.new_user_service
  find_address-Keeps render [] = Keeps-pure _
  find_address-Keeps render (a ∷ []) = Keeps-pure _
  find_address-Keeps render (a ∷ b ∷ []) = search (keeps_rules, get_full_user-Keeps p guarded)
  find_address-Keeps render (a ∷ b ∷ c ∷ parts) = Keeps-pure _

  find_resource-Keeps :
      (render : FullUser → String) (parts : List String)
      → Keeps P (find_resource (user_service p) p.domain.host render parts)
  unfolding find_resource
  find_resource-Keeps render [] = Keeps-pure _
  find_resource-Keeps render (a ∷ []) = Keeps-pure _
  find_resource-Keeps render (a ∷ b ∷ []) = find_address-Keeps render _
  find_resource-Keeps render (a ∷ b ∷ c ∷ parts) = Keeps-pure _

  pub serve_web_finger-Keeps :
      (hub : Bool) (render : FullUser → String) (resource : String)
      → Keeps P (serve_web_finger p hub render resource)
  unfolding serve_web_finger handle_web_finger
  serve_web_finger-Keeps hub render resource =
      http_error_handler-Keeps hub _ (find_resource-Keeps render _)

  -- A request to an inbox, where following keeps the property
  pub serve_inbox-Keeps :
      ((act : Follow) → Keeps P ((inbox_service p).follow act))
      → (hub : Bool) (request : SignedRequest) (username body : String)
      → Keeps P (serve_inbox p hub request username body)
  unfolding serve_inbox inbox_route handle_inbox handle_signed or_refuse new_inbox_service
  serve_inbox-Keeps follows hub request username body =
      http_sig_middleware-Keeps _ _ _ guarded.services.fetch_key
        (λ signed. http_error_handler-Keeps hub _ (
          Keeps-if _ _ _
            (Keeps-match_call _ _ _ (guarded.services.get_user username)
              (λ _.
                Keeps-match_call _ _ _ (Keeps-lift _)
                  (λ _.
                    Keeps-match_call _ _ _ (Keeps-lift _)
                      (λ json.
                        Keeps-match_call _ _ _
                          (guarded.services.resolve _ _ _ json follows un_follow-Keeps
                            (Keeps-pure tt))
                          (λ _. Keeps-pure _) (λ e. Keeps-pure _))
                      (λ e. Keeps-pure _))
                  (λ e. Keeps-pure _))
              (λ e. Keeps-pure _))
            (Keeps-pure _)))
        request
