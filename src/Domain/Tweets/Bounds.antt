-- ===== src/Domain/Tweets/Bounds.antt =====
-- Saving a tweet never reads past the tweets that Twitter returned.
use estrys.Common.{
  ℕ, String, ◌==◌, if◌then◌else◌, Option, none, some, List, [], ◌∷◌, length, ◌≡◌, refl, arith,
}
use estrys.Outcome.{Result, ok, err, panic, message, pure, fail, lift}
use estrys.Outcome.Inversion.{bind_done}
use estrys.Outcome.Keeps.{
  IsReturn, Returns, Returns-pure, Returns-fail, Returns-wrapping, Returns-if, Returns-match_call,
  Returns-bind,
}
use estrys.Models.{Tweet, TweetObj, TweetRaw, Includes, Reference}
use estrys.Ports.{Library, TwitterClient, TweetRepository, UserService}
use estrys.Domain.Tweets.{
  convert_tweet, convert_all, reference_type, fetch_raw_tweet, known_tweet, split_references,
  fetch_missing, fetch_referenced_tweets, store_all, save_referenced_tweets, resolve_references,
  save_raw_tweet, save_first, save_unknown, save_tweet_and_references,
}

-- The services and the parser of times return or fail.
pub record IsQuiet {W : Type 0} (library : Library) (users : UserService W)
    (twitter : TwitterClient W) (repo : TweetRepository W) : Type 0 where
  pub parse_time_returns : (s : String) → IsReturn (library.parse_time s)
  pub batch_returns :
      (ids : List String) (w : W) → Returns (users.batch_create_users_from_ids ids) w
  pub get_tweets_returns : (ids : List String) (w : W) → Returns (twitter.get_tweets ids) w
  pub get_tweet_returns : (id : String) (w : W) → Returns (repo.get_tweet id) w
  pub store_returns : (t : Tweet) (w : W) → Returns (repo.store t) w

module _ {W : Type 0} (library : Library) (users : UserService W) (twitter : TwitterClient W)
    (repo : TweetRepository W) where
  accepted_length :
      (ids : List String) (answer raw : TweetRaw) (v u : W)
      → (if length answer.tweets == length ids
            then pure answer
            else fail (message "unexpected number of tweets returned"))
          v
        ≡ (ok raw, u)
      → length raw.tweets ≡ length ids
  unfolding pure fail
  accepted_length ids answer raw v u h = ground arith

  -- An answer that is accepted has as many tweets as were asked for.
  pub fetch_raw_tweet-length :
      (ids : List String) (raw : TweetRaw) (w u : W)
      → fetch_raw_tweet library users twitter repo ids w ≡ (ok raw, u)
      → length raw.tweets ≡ length ids
  unfolding fetch_raw_tweet pure fail
  fetch_raw_tweet-length ids raw w u h =
      let (answer, v, _, rest) = bind_done _ _ w h in accepted_length ids answer raw v u rest

  module _ (quiet : IsQuiet library users twitter repo) where
    lift-Returns : {A : Type 0} (r : Result A) (w : W) → IsReturn r → Returns (lift r) w
    unfolding lift
    lift-Returns r w h = record { at = h }

    convert_tweet-IsReturn :
        (raw : TweetObj) (kind : String) (include : Option Includes)
        → IsReturn (convert_tweet library raw kind include)
    unfolding convert_tweet
    convert_tweet-IsReturn raw kind include =
        go (library.parse_time raw.created_at) refl (quiet.parse_time_returns raw.created_at)
      where
        go :
            (r : Result ℕ)
            → library.parse_time raw.created_at ≡ r
            → IsReturn r
            → IsReturn (convert_tweet library raw kind include)
        go (ok t) e h = rw (e, IsReturn) tt
        go (err why) e h = rw (e, IsReturn) tt
        go (panic why) e h = absurd h

    convert_all-IsReturn :
        (refs : List Reference) (raws : List TweetObj) (include : Option Includes)
        → IsReturn (convert_all library refs raws include)
    unfolding convert_all
    convert_all-IsReturn refs [] include = tt
    convert_all-IsReturn refs (raw ∷ raws) include = ground (
      arith,
      convert_tweet-IsReturn raw (reference_type "" raw.id refs) include,
      convert_all-IsReturn refs raws include,
    )

    fetch_raw_tweet-Returns :
        (ids : List String) (w : W) → Returns (fetch_raw_tweet library users twitter repo ids) w
    unfolding fetch_raw_tweet
    fetch_raw_tweet-Returns ids w =
        Returns-bind _ _ w (Returns-wrapping _ _ w (quiet.get_tweets_returns ids w))
          λ raw u _. Returns-if _ _ _ u (Returns-pure raw u) (Returns-fail _ u)

    known_tweet-Returns :
        (id : String) (w : W) → Returns (known_tweet library users twitter repo id) w
    unfolding known_tweet
    known_tweet-Returns id w =
        Returns-match_call _ _ _ w (quiet.get_tweet_returns id w) (λ t u _. Returns-pure t u)
          (λ e u _. Returns-pure none u)

    split_references-Returns :
        (refs : List Reference) (w : W)
        → Returns (split_references library users twitter repo refs) w
    unfolding split_references
    split_references-Returns [] w = Returns-pure _ w
    split_references-Returns (ref ∷ refs) w =
        Returns-bind _ _ w (known_tweet-Returns ref.id w) λ found u _.
          Returns-bind _ _ u (split_references-Returns refs u) λ rest v _. Returns-pure _ v

    fetch_missing-Returns :
        (refs : List Reference) (known : List Tweet) (ids : List String) (w : W)
        → Returns (fetch_missing library users twitter repo refs known ids) w
    unfolding fetch_missing
    fetch_missing-Returns refs known [] w = Returns-pure known w
    fetch_missing-Returns refs known (id ∷ ids) w =
        Returns-bind _ _ w (fetch_raw_tweet-Returns (id ∷ ids) w) λ raw u _.
          Returns-bind _ _ u (lift-Returns _ u (convert_all-IsReturn refs raw.tweets raw.includes))
            λ fetched v _. Returns-pure _ v

    store_all-Returns :
        (ts : List Tweet) (w : W) → Returns (store_all library users twitter repo ts) w
    unfolding store_all
    store_all-Returns [] w = Returns-pure tt w
    store_all-Returns (t ∷ ts) w =
        Returns-bind _ _ w (Returns-wrapping _ _ w (quiet.store_returns t w))
          λ _ u _. store_all-Returns ts u

    resolve_references-Returns :
        (raw : TweetObj) (refs : List Reference) (w : W)
        → Returns (resolve_references library users twitter repo raw refs) w
    unfolding resolve_references fetch_referenced_tweets save_referenced_tweets
    resolve_references-Returns raw [] w = Returns-pure [] w
    resolve_references-Returns raw (ref ∷ refs) w =
        Returns-bind _ _ w
          (Returns-wrapping _ _ w (
            Returns-bind _ _ w (split_references-Returns raw.referenced w)
              λ found u _. fetch_missing-Returns raw.referenced found.0 found.1 u))
          λ ts u _.
            Returns-bind _ _ u
              (Returns-bind _ _ u (Returns-wrapping _ _ u (quiet.batch_returns _ u))
                λ _ v _. store_all-Returns ts v)
              λ _ v _. Returns-pure ts v

    save_raw_tweet-Returns :
        (raw : TweetObj) (include : Option Includes) (w : W)
        → Returns (save_raw_tweet library users twitter repo raw include) w
    unfolding save_raw_tweet
    save_raw_tweet-Returns raw include w =
        Returns-bind _ _ w (lift-Returns _ w (convert_tweet-IsReturn raw "" include)) λ t u _.
          Returns-bind _ _ u (resolve_references-Returns raw raw.referenced u) λ ts v _.
            Returns-bind _ _ v (Returns-wrapping _ _ v (quiet.batch_returns _ v)) λ _ x _.
              Returns-bind _ _ x (Returns-wrapping _ _ x (quiet.store_returns _ x))
                λ _ y _. Returns-pure _ y

    save_first-Returns :
        (raw : TweetRaw) (raws : List TweetObj) (w : W)
        → length raws ≡ 1
        → Returns (save_first library users twitter repo raw raws) w
    unfolding save_first
    save_first-Returns raw [] w h = absurd (omega arith)
    save_first-Returns raw (t ∷ ts) w h = save_raw_tweet-Returns t raw.includes w

    save_unknown-Returns :
        (id : String) (known : Option Tweet) (w : W)
        → Returns (save_unknown library users twitter repo id known) w
    unfolding save_unknown
    save_unknown-Returns id (some t) w = Returns-pure t w
    save_unknown-Returns id none w =
        Returns-bind _ _ w (fetch_raw_tweet-Returns (id ∷ []) w) λ raw u e.
          save_first-Returns raw raw.tweets u (fetch_raw_tweet-length (id ∷ []) raw w u e)

    -- Where the services do not panic, saving a tweet does not either, whatever Twitter answers: its
    -- first tweet is read only from an answer that has one.
    pub save_tweet_and_references-Returns :
        (id : String) (w : W) → Returns (save_tweet_and_references library users twitter repo id) w
    unfolding save_tweet_and_references
    save_tweet_and_references-Returns id w =
        Returns-bind _ _ w (known_tweet-Returns id w) λ known u _. save_unknown-Returns id known u
