-- ===== src/System/Granted.antt =====
-- Who follows: in every state that the system reaches, an actor whose account may follow.
use estrys.Common.{Bool, true, false, [], ◌∷◌, Option, none, some, ◌≡◌, refl, ap, ◌∙◌, arith}
use estrys.Outcome.{ok}
use estrys.Outcome.Inversion.{wrapping_ok, lift_ok}
use estrys.Outcome.Keeps.{
  Keeps, Keeps-fail, Keeps-lift, Keeps-wrapping, Keeps-if, Keeps-bind, Keeps-bind_run,
}
use estrys.Models.{Url, User, Actor}
use estrys.Activity.{iri, Property, Follow, text, VocabLibrary}
use estrys.Authorization.{actor_property, subject_of, is_granted, can_follow_attribute}
use estrys.Authorization.Laws.{MayFollow, is_granted_iff}
use estrys.Domain.Inbox.Laws.{get_actor_url-text}
use estrys.Domain.Inbox.Named.{IsActorStore, create_actor_if_no_exist-url}
use estrys.Domain.Inbox.{
  get_actor_url, accept, reject, answer, follow_on_domain, follow, new_inbox_service,
}
use estrys.Poller.{State}
use estrys.Ports.{Library}
use estrys.System.{
  Program, voters, inbox_service, Step, inbox, page, status, web_finger, create_users, task, tick,
  Reach, here, later,
}
use estrys.System.Guarded.{IsGuarded, batch_create_users-Keeps}
use estrys.System.Guarded.Requests.{
  followed_user-Keeps, create_actor_if_no_exist-Keeps, serve_page-Keeps, serve_status-Keeps,
  serve_web_finger-Keeps, serve_inbox-Keeps,
}
use estrys.System.Guarded.Tasks.{work-Keeps}
use estrys.System.Guarded.Polls.{InWorld, poll-Keeps}

-- The actor's URL is that of an account which may follow.
abbrev pub Entitled : {W : Type 0} → Program W → Actor → Type 0
Entitled p actor =
    (url : Url) × (actor.url ≡ p.library.url_string url) × MayFollow p.library p.allowed_users url

-- A URL that was printed is serialized as it is, and parsed to one that prints the same.
pub record PrintsUrls (library : Library) (vocab : VocabLibrary) : Type 0 where
  pub serialized :
      (url : Url) → vocab.serialize_property (iri url ∷ []) ≡ ok (text (library.url_string url))
  pub parsed :
      (url found : Url)
      → library.parse_url (library.url_string url) ≡ ok found
      → library.url_string found ≡ library.url_string url

-- The repository gives an actor under the URL that was asked for, too.
pub record NamesActors {W : Type 0} (p : Program W) : Type 0 where
  pub store : IsActorStore p.library p.actors
  pub urls : PrintsUrls p.library p.vocab

module _ {W : Type 0} (p : Program W) (names : NamesActors p) where
  subject_of_actor :
      (actor : Option Property) (url : Url)
      → subject_of actor ≡ actor_property (iri url ∷ [])
      → actor ≡ some (iri url ∷ [])
  subject_of_actor none url h = cc h
  subject_of_actor (some property) url h = ground (arith, h)

  get_actor_url-iri :
      (url found : Url)
      → get_actor_url p.library p.vocab (some (iri url ∷ [])) ≡ ok found
      → p.library.url_string found ≡ p.library.url_string url
  get_actor_url-iri url found h =
      names.urls.parsed url found
        (get_actor_url-text p.library p.vocab (iri url ∷ []) _ found (names.urls.serialized url) h)

  granted_actor :
      (act : Follow) (found : Url) (actor : Actor)
      → get_actor_url p.library p.vocab act.actor ≡ ok found
      → actor.url ≡ p.library.url_string found
      → is_granted (voters p) (subject_of act.actor) can_follow_attribute ≡ ok true
      → Entitled p actor
  granted_actor act found actor is_url named granted =
      let (url, subject, may) =
        (is_granted_iff p.library p.allowed_users (subject_of act.actor)).0 granted in
      let same = subject_of_actor act.actor url subject in
      (url, named ∙ get_actor_url-iri url found (rw same at is_url), may)

module _ {W : Type 0} (p : Program W) {P : W → Type 0} (names : NamesActors p)
    (guarded : IsGuarded p P (Entitled p)) where
  answer_granted-Keeps :
      (user : User) (actor : Actor) (act : Follow) (granted : Bool)
      → (granted ≡ true → Entitled p actor)
      → Keeps P (
          answer p.library p.vocab p.actors p.users p.keys p.worker
            (voters p)
            p.domain
            p.trace_id
            user
            actor
            act
            granted)
  unfolding answer accept reject
  answer_granted-Keeps user actor act true entitled =
      Keeps-bind _ _ (Keeps-wrapping _ _ (guarded.follow user actor (entitled refl))) λ _.
        Keeps-bind _ _ (Keeps-wrapping _ _ (Keeps-lift _))
          λ task. Keeps-wrapping _ _ (guarded.services.enqueue task)
  answer_granted-Keeps user actor act false entitled =
      Keeps-bind _ _ (Keeps-wrapping _ _ (Keeps-lift _)) λ task.
        Keeps-bind _ _ (Keeps-wrapping _ _ (guarded.services.enqueue task)) λ _. Keeps-fail _

  follow_on_domain-Keeps :
      (act : Follow) (url : Url)
      → Keeps P (
          follow_on_domain p.library p.vocab p.actors p.users p.keys p.worker
            (voters p)
            p.domain
            p.trace_id
            act
            url)
  unfolding follow_on_domain
  follow_on_domain-Keeps act url = Keeps-bind _ _ (followed_user-Keeps p guarded url) λ user.
      Keeps-bind_run _ _ (Keeps-wrapping _ _ (Keeps-lift _)) λ found s u read h.
        let is_url = (lift_ok _ s (wrapping_ok _ _ s read)).0 in
        (Keeps-bind_run _ _ (Keeps-wrapping _ _ (create_actor_if_no_exist-Keeps p guarded found))
            λ actor s' u' made h'.
              let named =
                create_actor_if_no_exist-url _ _ _ _ _ _ _ _ _ names.store found actor s' u'
                  (wrapping_ok _ _ s' made) in
              (Keeps-bind_run _ _ (Keeps-lift _) λ granted t v voted k.
                  (answer_granted-Keeps user actor act granted λ yes.
                      granted_actor p names act found actor is_url named
                        ((lift_ok _ t voted).0 ∙ ap ok yes)).at
                    v k).at
                u' h').at
          u h

  follow-Keeps : (act : Follow) → Keeps P ((inbox_service p).follow act)
  unfolding follow new_inbox_service
  follow-Keeps act =
      Keeps-bind _ _ (Keeps-wrapping _ _ (Keeps-lift _))
        λ url. Keeps-if _ _ _ (follow_on_domain-Keeps act url) (Keeps-fail _)

  Step-Keeps : {s t : State W} → Step p s t → InWorld P s → InWorld P t
  unfolding estrys.Domain.Users.new_user_service
  Step-Keeps {s} (inbox hub request username body) h =
      (serve_inbox-Keeps p guarded follow-Keeps hub request username body).at s.world h
  Step-Keeps {s} (page hub get username) h =
      (serve_page-Keeps p guarded hub get username).at s.world h
  Step-Keeps {s} (status hub status_url execute username id) h =
      (serve_status-Keeps p guarded hub status_url execute username id).at s.world h
  Step-Keeps {s} (web_finger hub render resource) h =
      (serve_web_finger-Keeps p guarded hub render resource).at s.world h
  Step-Keeps {s} (create_users usernames) h =
      (batch_create_users-Keeps p guarded usernames).at s.world h
  Step-Keeps {s} (task t) h = (work-Keeps p guarded t).at s.world h
  Step-Keeps {s} tick h = (poll-Keeps p guarded).at s h

  -- Where actors are named by their URLs, in every state that the system reaches, by whatever requests,
  -- tasks and ticks in whatever order, the world has each property that it had at first and that all
  -- calls of the services keep, where writing a follower need keep it only for an actor whose name ends
  -- with a configured entry.
  pub Reach-Keeps : {s t : State W} → Reach p s t → InWorld P s → InWorld P t
  Reach-Keeps here h = h
  Reach-Keeps (later before step) h = Step-Keeps step (Reach-Keeps before h)
