-- ===== src/Domain/Tweets/Saved.antt =====
-- A tweet that was saved is known.
use estrys.Common.{
  String, Option, none, some, List, [], ◌∷◌, to_lower, to_lower_idem, Bool-cases, str_eq, ◌≡◌, refl,
  sym, ap, ◌∙◌, subst, inl, inr, arith,
}
use estrys.Outcome.{ok, pure, crash, match_call, ◌>>=◌}
use estrys.Outcome.Inversion.{bind_done, wrapping_ok, lift_ok}
use estrys.Models.{Tweet, tweet, fields, append_reference, TweetObj, UserObj, TweetRaw, Includes}
use estrys.Ports.{Library, TwitterClient, TweetRepository, UserService}
use estrys.Twitter.Tweets.{lowered}
use estrys.Twitter.Tweets.Laws.{IsStore}
use estrys.Domain.Tweets.{
  author_among, author_name, convert_tweet, with_references, known_tweet, save_raw_tweet,
  save_first, save_unknown, save_tweet_and_references,
}

author_among_lower :
    (id : String) (users : List UserObj) → to_lower (author_among id users) ≡ author_among id users
unfolding author_among to_lower
author_among_lower id [] = refl
author_among_lower id (user ∷ users) = elim (Bool-cases (str_eq id user.id)) [
  | inl same ↦ rw same (to_lower_idem user.user_name)
  | inr other ↦ rw other (author_among_lower id users)
]

author_name_lower :
    (id : String) (include : Option Includes)
    → to_lower (author_name id include) ≡ author_name id include
unfolding author_name to_lower
author_name_lower id none = refl
author_name_lower id (some include) = author_among_lower id include.users

lowered-with_references :
    (t : Tweet) (ts : List Tweet)
    → to_lower (fields t).author_username ≡ (fields t).author_username
    → lowered (with_references t ts) ≡ with_references t ts
unfolding lowered
lowered-with_references (tweet f refs) [] h =
    ap (λ name. tweet (record f { author_username = name }) refs) h
lowered-with_references (tweet f refs) (r ∷ rs) h =
    lowered-with_references (tweet f (append_reference refs r)) rs h

-- The name of a converted tweet's author is in lower case.
convert_tweet_lower :
    (library : Library) (raw : TweetObj) (kind : String) (include : Option Includes) (t : Tweet)
    → convert_tweet library raw kind include ≡ ok t
    → to_lower (fields t).author_username ≡ (fields t).author_username
unfolding convert_tweet
convert_tweet_lower library raw kind include t h =
    let low = author_name_lower raw.author_id include in ground (arith, h, low)

module _ {W : Type 0} (library : Library) (users : UserService W) (twitter : TwitterClient W)
    (repo : TweetRepository W) (store : IsStore repo) where
  save_known :
      (id : String) (t : Tweet) (u : W)
      → repo.get_tweet id u ≡ (ok (some t), u)
      → save_tweet_and_references library users twitter repo id u ≡ (ok t, u)
  unfolding save_tweet_and_references known_tweet save_unknown match_call pure ◌>>=◌
  save_known id t u h = rw h refl

  known_some :
      (id : String) (t : Tweet) (w v : W)
      → known_tweet library users twitter repo id w ≡ (ok (some t), v)
      → v ≡ w
  unfolding known_tweet match_call pure
  known_some id t w v h = ground (arith, h, store.get_state id w)

  save_raw_tweet_known :
      (raw : TweetObj) (include : Option Includes) (t : Tweet) (w u : W)
      → save_raw_tweet library users twitter repo raw include w ≡ (ok t, u)
      → repo.get_tweet (fields t).id u ≡ (ok (some t), u)
  unfolding save_raw_tweet pure
  save_raw_tweet_known raw include t w u h =
      let (t0, v, first, rest1) = bind_done _ _ w h in
      let (referenced, x, _, rest2) = bind_done _ _ v rest1 in
      let (_, y, _, rest3) = bind_done _ _ x rest2 in
      let (_, z, last, rest4) = bind_done _ _ y rest3 in
      let whole = with_references t0 referenced in
      let low : lowered whole ≡ whole =
        lowered-with_references t0 referenced
          (convert_tweet_lower library raw "" include t0 (lift_ok _ w first).0) in
      let found : repo.get_tweet (fields whole).id z ≡ (ok (some whole), z) =
        rw low at (store.get-store whole y z (wrapping_ok _ _ y last)) in
      ground (arith, rest4, found)

  save_first_known :
      (answer : TweetRaw) (raws : List TweetObj) (t : Tweet) (w u : W)
      → save_first library users twitter repo answer raws w ≡ (ok t, u)
      → repo.get_tweet (fields t).id u ≡ (ok (some t), u)
  unfolding save_first crash
  save_first_known answer [] t w u h = cc h
  save_first_known answer (raw ∷ raws) t w u h = save_raw_tweet_known raw answer.includes t w u h

  save_unknown_again :
      (id : String) (known : Option Tweet) (t : Tweet) (w v u : W)
      → known_tweet library users twitter repo id w ≡ (ok known, v)
      → save_unknown library users twitter repo id known v ≡ (ok t, u)
      → save_tweet_and_references library users twitter repo id w ≡ (ok t, u)
      → (fields t).id ≡ id
      → save_tweet_and_references library users twitter repo id u ≡ (ok t, u)
  unfolding save_unknown pure
  save_unknown_again id (some found) t w v u first rest h same =
      let end : v ≡ u = ap (λ r. r.1) rest in
      let start = known_some id found w v first in
      subst (λ x. save_tweet_and_references library users twitter repo id x ≡ (ok t, u))
        (sym start ∙ end) h
  save_unknown_again id none t w v u first rest h same =
      let (answer, x, _, last) = bind_done _ _ v rest in
      let found = save_first_known answer answer.tweets t x u last in
      save_known id t u (rw same at found)

  -- Over a repository that keeps its tweets, a tweet that was saved is not fetched again, where
  -- Twitter answered with the tweet that was asked for: saving it once more gives the same tweet and
  -- changes nothing.
  pub save_tweet_and_references_again :
      (id : String) (t : Tweet) (w u : W)
      → save_tweet_and_references library users twitter repo id w ≡ (ok t, u)
      → (fields t).id ≡ id
      → save_tweet_and_references library users twitter repo id u ≡ (ok t, u)
  unfolding save_tweet_and_references
  save_tweet_and_references_again id t w u h same =
      let (known, v, first, rest) = bind_done _ _ w h in
      save_unknown_again id known t w v u first rest h same
