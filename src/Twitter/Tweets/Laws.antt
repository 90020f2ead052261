-- ===== src/Twitter/Tweets/Laws.antt =====
-- A tweet that was stored is found.
use estrys.Common.{String, some, to_lower_idem, eq_refl, ◌≡◌, ap, subst, ◌∙◌, arith}
use estrys.Outcome.{ok, pure, fail, match_call}
use estrys.Outcome.Inversion.{match_call_ok}
use estrys.Models.{Tweet, tweet, fields}
use estrys.Ports.{Cache, TweetRepository}
use estrys.Cache.Laws.{IsLawful}
use estrys.Twitter.Tweets.{get_tweet_cache_key, lowered, get_tweet, store, new_tweet_repository}

-- What the repository of tweets gives: looking up changes nothing, and a stored tweet is found, with
-- its author's name in lower case.
pub record IsStore {W : Type 0} (repo : TweetRepository W) : Type 0 where
  pub get_state : (id : String) (w : W) → (repo.get_tweet id w).1 ≡ w
  pub get-store :
      (t : Tweet) (w u : W)
      → repo.store t w ≡ (ok tt, u)
      → repo.get_tweet (fields t).id u ≡ (ok (some (lowered t)), u)

lowered-lowered : (t : Tweet) → lowered (lowered t) ≡ lowered t
unfolding lowered
lowered-lowered (tweet f refs) =
    ap (λ name. tweet (record f { author_username = name }) refs) (to_lower_idem f.author_username)

module _ {W : Type 0} (cache : Cache W Tweet) (L : IsLawful cache) where
  stored :
      (t : Tweet) (w : W)
      → (store cache t w).0 ≡ ok tt
      → cache.get (get_tweet_cache_key (fields t).id) (store cache t w).1
        ≡ (ok (lowered t), (store cache t w).1)
  unfolding store
  stored t w done =
      let k = get_tweet_cache_key (fields t).id in
      ground (
        arith,
        L.get_state k (cache.set k (lowered t) w).1,
        L.get-set k k (lowered t) w done,
        eq_refl k,
      )

  get_tweet-store :
      (t : Tweet) (w u : W)
      → store cache t w ≡ (ok tt, u)
      → get_tweet cache (fields t).id u ≡ (ok (some (lowered t)), u)
  unfolding get_tweet pure
  get_tweet-store t w u done =
      let end = ap (λ r. r.1) done in
      subst (λ x. get_tweet cache (fields t).id x ≡ (ok (some (lowered t)), x)) end
        (match_call_ok _ _ _ (store cache t w).1 (stored t w (ap (λ r. r.0) done))
          ∙ ap (λ x. (ok (some x), (store cache t w).1)) (lowered-lowered t))

  get_tweet_state : (id : String) (w : W) → (get_tweet cache id w).1 ≡ w
  unfolding get_tweet match_call pure fail
  get_tweet_state id w = ground (arith, L.get_state (get_tweet_cache_key id) w)

  -- Over a lawful cache, the repository keeps its tweets: looking one up changes nothing, and a tweet
  -- that was stored is found under its id, with its author's name in lower case.
  pub new_tweet_repository-IsStore : IsStore (new_tweet_repository cache)
  unfolding new_tweet_repository
  new_tweet_repository-IsStore = record { get_state = get_tweet_state; get-store = get_tweet-store }
