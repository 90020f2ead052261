-- ===== src/System.antt =====
-- The two processes as one system: the requests that the server answers, the accounts that it creates at
-- its start, the ticks of its poller, and the tasks that the worker carries out, in any order. They share
-- the world outside, and each step is one whole request, task or tick; the host meta and the front page
-- touch no state. The services are wired as internal/dic/container/container.go wires them, and the
-- authorization is that of the program, the activity voter alone.
pub mod Guarded
pub mod Granted
pub mod Stored
pub mod Followers
pub mod Pipeline
use estrys.Common.{String, Bool, Option, List, [], ◌∷◌}
use estrys.Outcome.{Result, Action}
use estrys.Models.{Url, FullUser}
use estrys.Activity.{VocabLibrary}
use estrys.Ports.{
  Library, TwitterClient, UserRepository, ActorRepository, TweetRepository, KeyManager, UserService,
  TweetService, InboxService, ActivityPubClient, VocabService,
}
use estrys.Authorization.{Voter, new_activity_voter}
use estrys.Worker.Tasks.{Task, WorkerClient}
use estrys.Worker.Handlers.{Decoder}
use estrys.Worker.Broker.{ServeMux, carry_out}
use estrys.Domain.Users.{new_user_service}
use estrys.Domain.Inbox.{new_inbox_service}
use estrys.Domain.Tweets.{new_tweet_service}
use estrys.Poller.{State, fetch_tweets}
use estrys.Web.{Pages, JsonResolver, Reply, Response, http_error_handler, handle_page}
use estrys.Web.Status.{StatusPage, Execution, handle_status}
use estrys.Web.Finger.{handle_web_finger}
use estrys.Web.Signature.{SignedRequest, inbox_route}

-- The libraries, the services and the configuration that the processes are made of
pub record Program (W : Type 0) : Type 1 where
  pub library : Library
  pub vocab : VocabLibrary
  pub twitter : TwitterClient W
  pub users : UserRepository W
  pub actors : ActorRepository W
  pub tweets : TweetRepository W
  pub keys : KeyManager W
  pub worker : WorkerClient W
  pub client : ActivityPubClient W
  pub vocab_service : VocabService
  pub pages : Pages
  pub resolver : JsonResolver W
  pub decoder : Decoder
  pub mux : ServeMux W
  pub allowed_users : List String
  pub domain : Url
  pub disable_http_signature_verify : Bool
  pub trace_id : String

module _ {W : Type 0} (p : Program W) where
  abbrev pub voters : List Voter
  voters = new_activity_voter p.library p.allowed_users ∷ []

  abbrev pub user_service : UserService W
  user_service = new_user_service p.library p.users p.keys p.twitter

  abbrev pub inbox_service : InboxService W
  inbox_service =
      new_inbox_service p.library p.vocab p.actors p.users p.keys p.worker voters p.domain
        p.trace_id

  abbrev pub tweet_service : TweetService W
  tweet_service = new_tweet_service p.library user_service p.twitter p.tweets

  -- A POST to the inbox of a user
  unfoldable pub serve_inbox : Bool → SignedRequest → String → String → Action W Response
  serve_inbox =
      inbox_route p.twitter inbox_service p.resolver p.disable_http_signature_verify p.keys

  -- A GET of one of the pages of a user
  unfoldable pub serve_page :
      Bool → (FullUser → Result p.pages.Document) → String → Action W Response
  serve_page hub get username =
      http_error_handler hub (handle_page user_service p.pages get username)

  -- A GET of the page of a tweet
  unfoldable pub serve_status :
      Bool
      → (String → String → Result Url)
      → (StatusPage → Execution)
      → String
      → String
      → Action W Response
  serve_status hub status_url execute username id =
      http_error_handler hub (handle_status p.tweets user_service status_url execute username id)

  -- A GET of the web finger of a resource
  unfoldable pub serve_web_finger : Bool → (FullUser → String) → String → Action W Response
  serve_web_finger hub render resource =
      http_error_handler hub (handle_web_finger user_service p.domain.host render resource)

  -- A task that the queue hands out
  unfoldable pub work : Task → Action W (Unit {0})
  work task =
      carry_out p.library p.vocab p.decoder p.vocab_service p.users p.actors tweet_service p.client
        p.mux task

  unfoldable pub poll : Action (State W) (Unit {0})
  poll = fetch_tweets p.twitter p.users p.worker p.trace_id

  -- The state after an action on the world
  abbrev pub after : {A : Type 0} → Action W A → State W → State W
  after m s = record s { world = (m s.world).1 }

  pub data Step (s : State W) : State W → Type 0 where
    inbox :
        (hub : Bool) (request : SignedRequest) (username body : String)
        → Step s (after (serve_inbox hub request username body) s)
    page :
        (hub : Bool) (get : FullUser → Result p.pages.Document) (username : String)
        → Step s (after (serve_page hub get username) s)
    status :
        (hub : Bool) (status_url : String → String → Result Url) (execute : StatusPage → Execution)
        (username id : String)
        → Step s (after (serve_status hub status_url execute username id) s)
    web_finger :
        (hub : Bool) (render : FullUser → String) (resource : String)
        → Step s (after (serve_web_finger hub render resource) s)
    create_users :
        (usernames : List String) → Step s (after (user_service.batch_create_users usernames) s)
    task : (t : Task) → Step s (after (work t) s)
    tick : Step s (poll s).1

  pub data Reach (s : State W) : State W → Type 0 where
    here : Reach s s
    later : {t u : State W} → Reach s t → Step t u → Reach s u
