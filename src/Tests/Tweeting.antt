-- ===== src/Tests/Tweeting.antt =====
-- Saving tweets, on concrete services.
use estrys.Outcome.Errors.{is_cache_miss}
use estrys.Cache.Laws.{IsLawful}
use estrys.Ports.{TweetRepository, Cache, TwitterClient, UserService}
use estrys.Twitter.Tweets.{get_tweet_cache_key, lowered, get_tweet, store, new_tweet_repository}
use estrys.Twitter.Tweets.Laws.{IsStore, new_tweet_repository-IsStore}
use estrys.Domain.Tweets.Saved.{save_tweet_and_references_again}
use estrys.Common.{
  to_lower, if◌then◌else◌, str_eq, false, none, some, ◌≢◌, List, String, [], ◌∷◌, ◌≡◌, refl,
}
use estrys.Models.{Tweet, tweet, nil, cons, fields, retweet, TweetObj}
use estrys.Outcome.{
  Result, ok, err, cache_miss, no_rows, pure, fail, lift, wrapping, match_call, ◌>>=◌,
}
use estrys.Domain.Tweets.{
  author_name, convert_tweet, fetch_raw_tweet, known_tweet, resolve_references, save_raw_tweet,
  save_first, save_unknown, save_tweet_and_references, attached_medias, split_references,
  fetch_missing, fetch_referenced_tweets, store_all, save_referenced_tweets,
}
use estrys.Domain.Tweets.Links.{drop_last_link}
use estrys.Domain.Tweets.Retweets.{save_raw_tweet-retweet_known}
use estrys.Tests.Services.{
  World, hello, alice, hellos, nobody_yet, hello_answer, parser, twitter, user_service,
}

calls : Unit {0}
unfolding pure fail lift wrapping match_call ◌>>=◌
calls = tt

-- The link at the end of a text is dropped, and no other one.
drop_last_link_tests :
    (drop_last_link "hello https://t.co/0123456789" ≡ "hello")
    × (drop_last_link "https://t.co/0123456789" ≡ "https://t.co/0123456789")
    × (drop_last_link "see https://t.co/0123456789 now" ≡ "see https://t.co/0123456789 now")
unfolding drop_last_link
drop_last_link_tests = (refl, refl, refl)

-- Tweets in a cache
abbrev Saved : Type 0
Saved = List (String × Tweet)

abbrev entry : String → Saved → Result Tweet
entry key [] = err cache_miss
entry key ((k, t) ∷ entries) = let rest = entry key entries in if str_eq k key then ok t else rest

abbrev saved : Cache Saved Tweet
saved = record { get = λ key w. (entry key w, w); set = λ key t w. (ok tt, (key, t) ∷ w) }

saved-IsLawful : IsLawful saved
saved-IsLawful = record { get_state = λ key w. refl; get-set = λ k j t w h. refl }

new_tweet_repository-IsStore_example : IsStore (new_tweet_repository saved)
new_tweet_repository-IsStore_example = new_tweet_repository-IsStore saved saved-IsLawful

abbrev some_users : UserService Saved
some_users = record {
  get_full_user = λ name. fail no_rows;
  batch_create_users_from_ids = λ ids. pure (alice ∷ []);
  batch_create_users = λ names. pure tt;
}

abbrev some_tweets : TwitterClient Saved
some_tweets = record {
  get_user_tweets = λ id start. pure hellos;
  get_tweets = λ ids. pure hello_answer;
  get_user = λ name. fail no_rows;
  get_user_by_ids = λ ids. pure [];
}

saving : Unit {0}
unfolding author_name convert_tweet fetch_raw_tweet known_tweet resolve_references save_raw_tweet
    save_first save_unknown save_tweet_and_references attached_medias drop_last_link
    new_tweet_repository get_tweet store lowered get_tweet_cache_key is_cache_miss to_lower
saving = tt

abbrev after_save : Result Tweet × Saved
after_save =
    save_tweet_and_references parser some_users some_tweets (new_tweet_repository saved) "20" []

abbrev hello_saved : Tweet
hello_saved =
    tweet
      (record {
        id = "20";
        author_id = "1";
        author_username = "";
        referenced_type = "";
        text = "hello";
        published = 7;
        sensitive = false;
        medias = [];
      })
      nil

save_tweet_and_references_again_example :
    save_tweet_and_references parser some_users some_tweets
      (new_tweet_repository saved)
      "20"
      after_save.1
    ≡ (ok hello_saved, after_save.1)
unfolding calls saving
save_tweet_and_references_again_example =
    save_tweet_and_references_again parser some_users some_tweets (new_tweet_repository saved)
      (new_tweet_repository-IsStore saved saved-IsLawful) "20" hello_saved [] after_save.1 refl refl

-- A tweet that retweets one that was saved by itself
abbrev retweeting : TweetObj
retweeting = record hello { id = "21"; referenced = record { id = "20"; kind = "retweeted" } ∷ [] }

abbrev with_hello : TweetRepository World
with_hello = record { get_tweet = λ id. pure (some hello_saved); store = λ t. pure tt }

-- What is saved for it
abbrev retweet_saved : Tweet
retweet_saved = tweet (record (fields hello_saved) { id = "21" }) (cons hello_saved nil)

no_retweet : ◌≢◌ {A = String} "" "retweeted"
no_retweet h = cc h

save_raw_tweet-retweet_known_example : retweet retweet_saved ≡ none
unfolding calls saving split_references fetch_missing fetch_referenced_tweets store_all
    save_referenced_tweets
save_raw_tweet-retweet_known_example =
    save_raw_tweet-retweet_known parser user_service twitter with_hello retweeting none
      (record { id = "20"; kind = "retweeted" }) hello_saved retweet_saved nobody_yet nobody_yet
      nobody_yet refl refl no_retweet refl
