-- ===== src/System/Guarded/Tweets.antt =====
-- Saving a tweet keeps what the services keep.
use estrys.Common.{String, List, [], ◌∷◌, Option, none, some}
use estrys.Outcome.{◌>>=◌}
use estrys.Outcome.Keeps.{Keeps, Keeps-pure, Keeps-lift, Keeps-wrapping, Keeps-bind, keeps_rules}
use estrys.Models.{Tweet, Reference, TweetObj, Includes, TweetRaw}
use estrys.Domain.Tweets.{
  fetch_raw_tweet, known_tweet, split_references, fetch_missing, fetch_referenced_tweets, store_all,
  save_referenced_tweets, resolve_references, save_raw_tweet, save_first, save_unknown,
  save_tweet_and_references,
}
use estrys.System.{Program, user_service}
use estrys.System.Guarded.{IsGuarded, batch_create_users_from_ids-Keeps}

module _ {W : Type 0} (p : Program W) {P : W → Type 0} {Entitled : estrys.Models.Actor → Type 0}
    (guarded : IsGuarded p P Entitled) where
  fetch_raw_tweet-Keeps :
      (ids : List String)
      → Keeps P (fetch_raw_tweet p.library (user_service p) p.twitter p.tweets ids)
  unfolding fetch_raw_tweet ◌>>=◌
  fetch_raw_tweet-Keeps ids = search (keeps_rules, guarded.services.get_tweets)

  known_tweet-Keeps :
      (id : String) → Keeps P (known_tweet p.library (user_service p) p.twitter p.tweets id)
  unfolding known_tweet
  known_tweet-Keeps id = search (keeps_rules, guarded.services.get_tweet)

  split_references-Keeps :
      (refs : List Reference)
      → Keeps P (split_references p.library (user_service p) p.twitter p.tweets refs)
  unfolding split_references ◌>>=◌
  split_references-Keeps [] = Keeps-pure _
  split_references-Keeps (ref ∷ refs) =
      let later = split_references-Keeps refs in search (keeps_rules, known_tweet-Keeps)

  fetch_missing-Keeps :
      (refs : List Reference) (known : List Tweet) (ids : List String)
      → Keeps P (fetch_missing p.library (user_service p) p.twitter p.tweets refs known ids)
  unfolding fetch_missing ◌>>=◌
  fetch_missing-Keeps refs known [] = Keeps-pure known
  fetch_missing-Keeps refs known (id ∷ ids) = search (keeps_rules, fetch_raw_tweet-Keeps)

  fetch_referenced_tweets-Keeps :
      (raw : TweetObj)
      → Keeps P (fetch_referenced_tweets p.library (user_service p) p.twitter p.tweets raw)
  unfolding fetch_referenced_tweets ◌>>=◌
  fetch_referenced_tweets-Keeps raw =
      search (keeps_rules, split_references-Keeps, fetch_missing-Keeps)

  store_all-Keeps :
      (ts : List Tweet) → Keeps P (store_all p.library (user_service p) p.twitter p.tweets ts)
  unfolding store_all ◌>>=◌
  store_all-Keeps [] = Keeps-pure tt
  store_all-Keeps (t ∷ ts) =
      let later = store_all-Keeps ts in search (keeps_rules, guarded.services.store)

  save_referenced_tweets-Keeps :
      (ts : List Tweet)
      → Keeps P (save_referenced_tweets p.library (user_service p) p.twitter p.tweets ts)
  unfolding save_referenced_tweets estrys.Domain.Users.new_user_service ◌>>=◌
  save_referenced_tweets-Keeps ts =
      search (keeps_rules, store_all-Keeps, batch_create_users_from_ids-Keeps p guarded)

  resolve_references-Keeps :
      (raw : TweetObj) (refs : List Reference)
      → Keeps P (resolve_references p.library (user_service p) p.twitter p.tweets raw refs)
  unfolding resolve_references ◌>>=◌
  resolve_references-Keeps raw [] = Keeps-pure _
  resolve_references-Keeps raw (ref ∷ refs) =
      let later = resolve_references-Keeps raw refs in
      search (keeps_rules, fetch_referenced_tweets-Keeps, save_referenced_tweets-Keeps)

  save_raw_tweet-Keeps :
      (raw : TweetObj) (include : Option Includes)
      → Keeps P (save_raw_tweet p.library (user_service p) p.twitter p.tweets raw include)
  unfolding save_raw_tweet estrys.Domain.Users.new_user_service
  save_raw_tweet-Keeps raw include = Keeps-bind _ _ (Keeps-lift _) λ t.
      Keeps-bind _ _ (resolve_references-Keeps raw raw.referenced) λ referenced.
        Keeps-bind _ _ (Keeps-wrapping _ _ (batch_create_users_from_ids-Keeps p guarded _))
          λ _. Keeps-bind _ _ (Keeps-wrapping _ _ (guarded.services.store _)) λ _. Keeps-pure _

  save_first-Keeps :
      (answer : TweetRaw) (raws : List TweetObj)
      → Keeps P (save_first p.library (user_service p) p.twitter p.tweets answer raws)
  unfolding save_first estrys.Outcome.crash
  save_first-Keeps answer [] = record { at = λ w h. h }
  save_first-Keeps answer (raw ∷ raws) = save_raw_tweet-Keeps raw answer.includes

  save_unknown-Keeps :
      (id : String) (known : Option Tweet)
      → Keeps P (save_unknown p.library (user_service p) p.twitter p.tweets id known)
  unfolding save_unknown ◌>>=◌
  save_unknown-Keeps id (some t) = Keeps-pure t
  save_unknown-Keeps id none = search (keeps_rules, fetch_raw_tweet-Keeps, save_first-Keeps)

  pub save_tweet_and_references-Keeps :
      (id : String)
      → Keeps P (save_tweet_and_references p.library (user_service p) p.twitter p.tweets id)
  unfolding save_tweet_and_references ◌>>=◌
  save_tweet_and_references-Keeps id = search (keeps_rules, known_tweet-Keeps, save_unknown-Keeps)
