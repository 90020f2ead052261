-- ===== src/Domain/Tweets/Retweets.antt =====
-- What a saved tweet shows of a tweet that it references and that was known already.
use estrys.Common.{
  String, str_eq, eq_iff, Bool-cases, Option, none, some, List, [], ◌∷◌, ◌≡◌, ◌≢◌, refl, sym, ap,
  subst, ◌∙◌, inl, inr, arith,
}
use estrys.Outcome.{ok, pure}
use estrys.Outcome.Inversion.{bind_done, wrapped_done, lift_ok, pure_ok, match_call_ok}
use estrys.Models.{
  Tweet, tweet, nil, fields, first_retweet, retweet, reference_type_retweet, TweetObj, Reference,
  Includes,
}
use estrys.Ports.{Library, TwitterClient, TweetRepository, UserService}
use estrys.Domain.Tweets.{
  convert_tweet, with_references, known_tweet, split_references, fetch_missing,
  fetch_referenced_tweets, resolve_references, save_raw_tweet,
}

convert_tweet_bare :
    (library : Library) (raw : TweetObj) (kind : String) (include : Option Includes) (t : Tweet)
    → convert_tweet library raw kind include ≡ ok t
    → t ≡ tweet (fields t) nil
unfolding convert_tweet
convert_tweet_bare library raw kind include t h = ground (arith, h)

retweet_one :
    (t known : Tweet)
    → t ≡ tweet (fields t) nil
    → (fields known).referenced_type ≢ reference_type_retweet
    → retweet (with_references t (known ∷ [])) ≡ none
unfolding retweet first_retweet
retweet_one t known bare other =
    elim (Bool-cases (str_eq (fields known).referenced_type reference_type_retweet)) [
      | inl same ↦ absurd (other ((eq_iff _ _).0 same))
      | inr differs ↦ rw bare (rw differs refl)
    ]

module _ {W : Type 0} (library : Library) (users : UserService W) (twitter : TwitterClient W)
    (repo : TweetRepository W) where
  known_tweet_found :
      (id : String) (known : Tweet) (o : Option Tweet) (w v u : W)
      → repo.get_tweet id w ≡ (ok (some known), v)
      → known_tweet library users twitter repo id w ≡ (ok o, u)
      → o ≡ some known
  unfolding known_tweet pure
  known_tweet_found id known o w v u e h =
      ground (arith, sym (match_call_ok _ pure (λ e. pure none) w e) ∙ h)

  split_references_known :
      (ref : Reference) (known : Tweet) (found : List Tweet × List String) (w v u : W)
      → repo.get_tweet ref.id w ≡ (ok (some known), v)
      → split_references library users twitter repo (ref ∷ []) w ≡ (ok found, u)
      → found ≡ (known ∷ [], [])
  unfolding split_references pure
  split_references_known ref known found w v u e h =
      let (o, x, first, rest1) = bind_done _ _ w h in
      let (nothing, y, second, rest2) = bind_done _ _ x rest1 in
      let same = known_tweet_found ref.id known o w v x e first in
      let (empty, _) = pure_ok _ _ x second in
      let (joined, _) = pure_ok _ _ y rest2 in ground (arith, empty, joined, same)

  fetch_missing_none :
      (refs : List Reference) (found : List Tweet × List String) (known : Tweet)
      (fetched : List Tweet) (w u : W)
      → found ≡ (known ∷ [], [])
      → fetch_missing library users twitter repo refs found.0 found.1 w ≡ (ok fetched, u)
      → fetched ≡ known ∷ []
  unfolding fetch_missing
  fetch_missing_none refs found known fetched w u same h = sym (pure_ok _ _ w (rw same at h)).0

  resolved :
      (raw : TweetObj) (ref : Reference) (w x y : W) (referenced : List Tweet)
      → raw.referenced ≡ ref ∷ []
      → w ≡ x
      → resolve_references library users twitter repo raw raw.referenced x ≡ (ok referenced, y)
      → resolve_references library users twitter repo raw (ref ∷ []) w ≡ (ok referenced, y)
  resolved raw ref w x y referenced one stays h =
      subst (λ refs. resolve_references library users twitter repo raw refs w ≡ (ok referenced, y))
        one
        (subst
          (λ s.
            resolve_references library users twitter repo raw raw.referenced s ≡ (ok referenced, y))
          (sym stays) h)

  resolve_references_known :
      (raw : TweetObj) (ref : Reference) (known : Tweet) (referenced : List Tweet) (w v u : W)
      → raw.referenced ≡ ref ∷ []
      → repo.get_tweet ref.id w ≡ (ok (some known), v)
      → resolve_references library users twitter repo raw (ref ∷ []) w ≡ (ok referenced, u)
      → referenced ≡ known ∷ []
  unfolding resolve_references fetch_referenced_tweets
  resolve_references_known raw ref known referenced w v u one e h =
      let (fetched, x, first, rest1) = wrapped_done _ _ _ w h in
      let (_, y, _, rest2) = bind_done _ _ x rest1 in
      let (same, _) = pure_ok _ _ y rest2 in
      let (found, z, second, rest3) = bind_done _ _ w first in
      let split = split_references_known ref known found w v z e (rw one at second) in
      sym same ∙ fetch_missing_none raw.referenced found known fetched z x split rest3

  -- A tweet whose only reference is to a tweet that the repository already knows, as anything but a
  -- retweet, is saved as a tweet without a retweet, even where the reference says that it is one.
  pub save_raw_tweet-retweet_known :
      (raw : TweetObj) (include : Option Includes) (ref : Reference) (known whole : Tweet)
      (w v u : W)
      → raw.referenced ≡ ref ∷ []
      → repo.get_tweet ref.id w ≡ (ok (some known), v)
      → (fields known).referenced_type ≢ reference_type_retweet
      → save_raw_tweet library users twitter repo raw include w ≡ (ok whole, u)
      → retweet whole ≡ none
  unfolding save_raw_tweet retweet first_retweet
  save_raw_tweet-retweet_known raw include ref known whole w v u one e other h =
      let (t, x, first, rest1) = bind_done _ _ w h in
      let (converted, stays) = lift_ok _ w first in
      let (referenced, y, second, rest2) = bind_done _ _ x rest1 in
      let (_, z, _, rest3) = bind_done _ _ y rest2 in
      let (_, a, _, rest4) = bind_done _ _ z rest3 in
      let (same, _) = pure_ok _ _ a rest4 in
      let refs =
        resolve_references_known raw ref known referenced w v y one e
          (resolved raw ref w x y referenced one stays second) in
      subst (λ b. retweet b ≡ none) (ap (with_references t) (sym refs) ∙ same)
        (retweet_one t known (convert_tweet_bare library raw "" include t converted) other)
