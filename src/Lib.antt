-- ===== src/Lib.antt =====
-- Estrys: a bridge that shows Twitter accounts to the Fediverse.
--
-- The program has two processes. The server (cmd/estrys/main.go) answers ActivityPub requests and
-- polls Twitter; the worker (cmd/worker/main.go) carries out the tasks that the server queues. They
-- share a database, a Redis cache and the queue of tasks.
--
-- Outcome models a call of a Go function: a value, an error or a panic, with the state of the world
-- that was reached. The world is a type parameter `W`. The packages' interfaces are the records of
-- Ports, and a component takes those that it calls as parameters, as its constructor does in Go:
--
--   Common         names of the libraries, Boolean tests, lists and the functions of package strings
--   Outcome        errors (internal/domain/errors.go and others) and their texts (Texts), results,
--                  actions and their invariants
--   Models         rows (internal/models), tweets (internal/twitter/models), users (internal/domain)
--   Activity       the ActivityStreams values that the program looks into
--   Ports          the interfaces between the components
--   Cache          internal/cache/redis.go: `Set`, `Get`
--   Twitter        internal/twitter/client.go (Client: `GetUser`, `GetUserByIDs`, ...) and
--                  internal/twitter/repository (Tweets: `GetTweet`, `Store`)
--   Repository     internal/repository: user.go (Users) and actor.go (Actors)
--   Worker         internal/worker: the tasks (Tasks), their handlers (Handlers), and what the worker
--                  registers (Broker)
--   Federation     internal/activitypub/client/client.go: `PostInbox` and its `RoundTrip`
--   Poller         internal/twitter/poller/poller.go: `RefreshUserList`, `FetchTweets`, `Start`
--   Authorization  internal/authorization: `IsGranted` and the activity voter
--   Domain         internal/domain: users.go (Users), inbox.go (Inbox), tweet.go (Tweets)
--   Crypto         internal/crypto/key_manager.go: `FetchKey`, `GenerateKey`, `FormatPubKey`
--   Web            internal/activitypub/handlers: users.go, well_known.go (Finger); internal/errors,
--                  internal/domain/status/handler.go (Status) and internal/activitypub/auth/http.go
--                  (Signature)
--   Urls           internal/router/urlgenerator and internal/router/routes; the table of routes of the
--                  routers (Paths)
--   Vocab          internal/activitypub/vocab.go: the documents of the pages and the activities that
--                  are sent
--   Config         internal/config/config.go: `Load`
--   Startup        cmd: `Bootstrap` and the two `main`, with `Connect` and `Ping`
--   Dic            internal/dic: the container of the services, and `BuildContainer` (Container)
--   Observability  internal/observability and internal/logger: transactions and spans
--   Server         internal/server.go: `StartServer`
--   System         the server, its poller and the worker as one system of interleaved steps, over any
--                  services, and over the repositories of the database (Stored, Followers)
--   Tests          concrete services, runs, and the laws at concrete inputs
--
-- A request to an inbox goes through Web.Signature to Web; a follow goes on to Domain.Inbox, which asks
-- Authorization, writes to Repository and queues a task of Worker. The poller reads the followed users
-- from Repository, their tweets from Twitter, and queues a task for each follower of a new tweet. The
-- worker gives a task to its handler, which saves the tweet with Domain.Tweets, or reads the follow that
-- is answered, builds an activity with Vocab, and posts it with Federation, signed in the name of the
-- user whose URL Urls generates and whose key the user's page shows.
--
-- The loop of the poller is a list of events, ticks of its ticker and its end. The wait for users at
-- the start recurs on fuel, one unit for each reading of the list; with the fuel spent the wait has not
-- ended, and Poller.Waiting gives the fuel that is enough. All other loops are structural recursion on
-- their lists.
--
-- Not modelled: what is logged, and the spans of the poller and of the worker; the matching of routes,
-- which the router of the library does; the models that sqlboiler generates, whose statements are parameters;
-- concurrent requests, since each operation is given as one sequence of calls; JSON and msgpack texts,
-- which are the values that they encode.
pub mod Common
pub mod Outcome
pub mod Models
pub mod Activity
pub mod Ports
pub mod Urls
pub mod Cache
pub mod Twitter
pub mod Repository
pub mod Worker
pub mod Federation
pub mod Poller
pub mod Authorization
pub mod Domain
pub mod Crypto
pub mod Web
pub mod Vocab
pub mod Config
pub mod Startup
pub mod Dic
pub mod Observability
pub mod Server
pub mod System
pub mod Tests
