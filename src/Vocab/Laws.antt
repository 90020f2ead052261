-- ===== src/Vocab/Laws.antt =====
-- What the documents and the activities hold.
use estrys.Common.{String, ◌≡◌, arith, List, [], ◌∷◌, map}
use estrys.Outcome.{Result, ok, Action}
use estrys.Outcome.Fallible.{chain_ok, wrapped-eq-ok, or_nil}
use estrys.Models.{PublicKey, User, Tweet, fields}
use estrys.Activity.{Follow, follow_activity, Answer, Create, Message, accept, reject, create}
use estrys.Ports.{Library, UrlGenerator}
use estrys.Urls.{user_route, user_followers_route, status_route}
use estrys.Vocab.{
  Serializer, TypeResolver, append_follow, check_object, attachment_of, public_address, answer_of,
  get_accept, get_reject, create_of, get_create_note_from_tweet,
}

-- What the resolver does with a follow, which it has a callback for
pub record IsResolver (resolver : TypeResolver) : Type 0 where
  pub resolve_follow :
      (callback : Follow → Action (List Follow) (Unit {0})) (act : Follow) (follows : List Follow)
      → resolver.resolve callback (follow_activity act) follows ≡ callback act follows

module _ (library : Library) (urls : UrlGenerator) (serializer : Serializer)
    (resolver : TypeResolver) (format_pub_key : PublicKey → Result String) where
  -- An answer to a follow that comes from the user: it names the user as its actor, and holds that
  -- follow and nothing else.
  pub record IsAnswer (username : String) (act : Follow) (answer : Answer) : Type 0 where
    pub is_actor : urls.url user_route ("username" ∷ username ∷ []) ≡ ok answer.actor
    pub is_id : answer.id ≡ answer.actor
    pub is_object : answer.object ≡ act ∷ []

  answer_of_ok :
      (is : IsResolver resolver) (user : User) (act : Follow) (answer : Answer)
      → answer_of library urls serializer resolver format_pub_key user (follow_activity act)
        ≡ ok answer
      → IsAnswer user.username act answer
  unfolding answer_of check_object
  answer_of_ok is user act answer h =
      let (user_url, is_url, rest1) = wrapped-eq-ok _ _ _ h in
      let (_, _, rest2) = wrapped-eq-ok _ _ _ rest1 in
      let (follows, checked, rest3) = chain_ok _ _ rest2 in
      let found : check_object (follow_activity act) (ok tt, act ∷ []) ≡ ok follows =
        rw (is.resolve_follow append_follow act []) at checked in
      record {
        is_actor = ground (arith, is_url, rest3);
        is_id = ground (arith, rest3);
        is_object = ground (arith, rest3, found);
      }

  pub get_accept_ok :
      (is : IsResolver resolver) (user : User) (act : Follow) (m : Message)
      → get_accept library urls serializer resolver format_pub_key user (follow_activity act) ≡ ok m
      → (answer : Answer) × (m ≡ accept answer) × IsAnswer user.username act answer
  unfolding get_accept
  get_accept_ok is user act m h =
      let (answer, made, rest) = chain_ok _ _ h in
      (answer, ground (arith, rest), answer_of_ok is user act answer made)

  pub get_reject_ok :
      (is : IsResolver resolver) (user : User) (act : Follow) (m : Message)
      → get_reject library urls serializer resolver format_pub_key user (follow_activity act) ≡ ok m
      → (answer : Answer) × (m ≡ reject answer) × IsAnswer user.username act answer
  unfolding get_reject
  get_reject_ok is user act m h =
      let (answer, made, rest) = chain_ok _ _ h in
      (answer, ground (arith, rest), answer_of_ok is user act answer made)

  -- The activity that creates the note of a tweet: both have the URL of the tweet's page, come from the
  -- user, and are for the public and the user's followers; the note has the text of the tweet, its
  -- mark as sensitive, and its media in order.
  pub record IsCreate (username : String) (t : Tweet) (c : Create) : Type 0 where
    pub is_id : urls.url status_route ("username" ∷ username ∷ "id" ∷ (fields t).id ∷ []) ≡ ok c.id
    pub is_note_id : c.object.id ≡ c.id
    pub is_actor : urls.url user_route ("username" ∷ username ∷ []) ≡ ok c.actor
    pub is_author : c.object.attributed_to ≡ c.actor
    pub is_cc : urls.url user_followers_route ("username" ∷ username ∷ []) ≡ ok c.cc
    pub is_note_cc : c.object.cc ≡ c.cc
    pub is_to : c.to ≡ or_nil (library.parse_url public_address)
    pub is_note_to : c.object.to ≡ c.to
    pub is_content : c.object.content ≡ (fields t).text
    pub is_sensitive : c.object.sensitive ≡ (fields t).sensitive
    pub is_attachments : c.object.attachments ≡ map attachment_of (fields t).medias

  create_of_ok :
      (username : String) (t : Tweet) (c : Create)
      → create_of library urls serializer resolver format_pub_key username t ≡ ok c
      → IsCreate username t c
  unfolding create_of
  create_of_ok username t c h =
      let (user_url, is_user, rest1) = wrapped-eq-ok _ _ _ h in
      let (followers_url, is_followers, rest2) = wrapped-eq-ok _ _ _ rest1 in
      let (status_url, is_status, rest3) = wrapped-eq-ok _ _ _ rest2 in
      record {
        is_id = ground (arith, is_status, rest3);
        is_note_id = ground (arith, rest3);
        is_actor = ground (arith, is_user, rest3);
        is_author = ground (arith, rest3);
        is_cc = ground (arith, is_followers, rest3);
        is_note_cc = ground (arith, rest3);
        is_to = ground (arith, rest3);
        is_note_to = ground (arith, rest3);
        is_content = ground (arith, rest3);
        is_sensitive = ground (arith, rest3);
        is_attachments = ground (arith, rest3);
      }

  pub get_create_note_from_tweet_ok :
      (username : String) (t : Tweet) (m : Message)
      → get_create_note_from_tweet library urls serializer resolver format_pub_key username t ≡ ok m
      → (c : Create) × (m ≡ create c) × IsCreate username t c
  unfolding get_create_note_from_tweet
  get_create_note_from_tweet_ok username t m h =
      let (c, made, rest) = chain_ok _ _ h in
      (c, ground (arith, rest), create_of_ok username t c made)
