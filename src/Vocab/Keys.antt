-- ===== src/Vocab/Keys.antt =====
-- The key that a user's page shows is the one that the requests in the user's name are signed with.
use estrys.Common.{ℕ, String, ◌≡◌, refl, sym, ap, subst, ◌∙◌, [], ◌∷◌}
use estrys.Outcome.{Result, ok}
use estrys.Outcome.Fallible.{ok_injective, chain_ok, wrapped-eq-ok, wrap_result-eq-ok}
use estrys.Models.{PublicKey, PrivateKey, User, FullUser}
use estrys.Activity.{Service, service, VocabLibrary}
use estrys.Ports.{Library, UrlGenerator, UserRepository, KeyManager, TwitterClient}
use estrys.Urls.{
  user_route, user_inbox_route, user_outbox_route, user_followers_route, user_following_route,
}
use estrys.Domain.Users.{get_full_user}
use estrys.Domain.Users.Laws.{get_full_user_ok}
use estrys.Federation.{Request, HttpLibrary, sign_and_send}
use estrys.Federation.Laws.{Sent, sign_and_send_ok}
use estrys.Vocab.{Serializer, TypeResolver, serialize, get_actor}

module _ (library : Library) (urls : UrlGenerator) (serializer : Serializer)
    (resolver : TypeResolver) (format_pub_key : PublicKey → Result String) where
  -- The actor of a user: its collections and its inbox are at the user's own URLs, and its key is the
  -- user's, under the actor's id.
  pub record IsActor (user : FullUser) (s : Service) : Type 0 where
    pub is_id : urls.url user_route ("username" ∷ user.username ∷ []) ≡ ok s.id
    pub is_inbox : urls.url user_inbox_route ("username" ∷ user.username ∷ []) ≡ ok s.inbox
    pub is_outbox : urls.url user_outbox_route ("username" ∷ user.username ∷ []) ≡ ok s.outbox
    pub is_followers :
        urls.url user_followers_route ("username" ∷ user.username ∷ []) ≡ ok s.followers
    pub is_following :
        urls.url user_following_route ("username" ∷ user.username ∷ []) ≡ ok s.following
    pub is_username : s.preferred_username ≡ user.username
    pub is_key_id : s.key_id ≡ s.id
    pub is_owner : s.key_owner ≡ s.id
    pub is_pem : format_pub_key user.public_key ≡ ok s.key_pem

  get_actor_ok :
      (user : FullUser) (json : serializer.Json)
      → get_actor library urls serializer resolver format_pub_key user ≡ ok json
      → (s : Service) × (serializer.serialize (service s) ≡ ok json) × IsActor user s
  unfolding get_actor serialize
  get_actor_ok user json h =
      let (inbox_url, is_inbox, rest1) = wrapped-eq-ok _ _ _ h in
      let (outbox_url, is_outbox, rest2) = wrapped-eq-ok _ _ _ rest1 in
      let (followers_url, is_followers, rest3) = wrapped-eq-ok _ _ _ rest2 in
      let (following_url, is_following, rest4) = wrapped-eq-ok _ _ _ rest3 in
      let (user_url, is_user, rest5) = wrapped-eq-ok _ _ _ rest4 in
      let (pem, is_pem, rest6) = chain_ok _ _ rest5 in
      (
        _,
        wrap_result-eq-ok _ _ rest6,
        record {
          is_id = is_user;
          is_inbox = is_inbox;
          is_outbox = is_outbox;
          is_followers = is_followers;
          is_following = is_following;
          is_username = refl;
          is_key_id = refl;
          is_owner = refl;
          is_pem = is_pem;
        },
      )

  module _ {W : Type 0} (vocab : VocabLibrary) (repo : UserRepository W) (keys : KeyManager W)
      (twitter : TwitterClient W) (http : HttpLibrary W) (now : String) where
    shown_for-Sent :
        (name : String) (row : User) (user : FullUser) (json : serializer.Json) (w found u : W)
        (request : Request) (status : ℕ) (before after : W)
        (sent : Sent library urls http request row status before after)
        → repo.get name w ≡ (ok row, found)
        → get_full_user library repo keys twitter name w ≡ (ok user, u)
        → get_actor library urls serializer resolver format_pub_key user ≡ ok json
        → (s : Service) × (serializer.serialize (service s) ≡ ok json)
          × (s.key_id ≡ sent.key_id)
          × (format_pub_key sent.key.public_key ≡ ok s.key_pem)
          × (s.key_owner ≡ sent.key_id)
    shown_for-Sent name row user json w found u request status before after sent is_row shown h =
        let (s, is_json, actor) = get_actor_ok user json h in
        let is_shown = get_full_user_ok library repo keys twitter name user w u shown in
        let same_row = ok_injective (ap (λ r. r.0) (sym is_row ∙ is_shown.is_row)) in
        let same_name = is_shown.is_username ∙ ap (λ r. r.username) (sym same_row) in
        let same_id : s.id ≡ sent.key_id = ok_injective (
          sym
            (subst (λ n. urls.url user_route ("username" ∷ n ∷ []) ≡ ok s.id) same_name actor.is_id)
          ∙ sent.is_key_id) in
        let same_key : is_shown.key ≡ sent.key = ok_injective (
          sym (
            subst (λ r. library.parse_private_key r.private_key ≡ ok is_shown.key) (sym same_row)
              is_shown.is_key)
          ∙ sent.is_key) in
        let same_public = is_shown.is_public_key ∙ ap (λ k. k.public_key) same_key in
        (
          s,
          is_json,
          actor.is_key_id ∙ same_id,
          subst (λ k. format_pub_key k ≡ ok s.key_pem) same_public actor.is_pem,
          actor.is_owner ∙ same_id,
        )

    -- Where a request in the name of a user's row was signed and sent, and the user's actor is shown, the
    -- request was signed by the private key whose public key the actor holds, under the key id that the
    -- actor gives to it, and the transport was given that signature.
    pub get_actor-key_id :
        (name : String) (row : User) (user : FullUser) (json : serializer.Json) (w found u : W)
        (request : Request) (status : ℕ) (before after : W)
        → repo.get name w ≡ (ok row, found)
        → get_full_user library repo keys twitter name w ≡ (ok user, u)
        → get_actor library urls serializer resolver format_pub_key user ≡ ok json
        → sign_and_send library vocab urls http now request row before ≡ (ok status, after)
        → (s : Service) × (key : PrivateKey) × (signature : String) × (serializer.serialize
              (service s)
            ≡ ok json)
          × (format_pub_key key.public_key ≡ ok s.key_pem)
          × (s.key_owner ≡ s.key_id)
          × (http.sign key (library.url_string s.key_id) request ≡ ok signature)
          × (http.transport request signature before ≡ (ok status, after))
    get_actor-key_id name row user json w found u request status before after is_row shown h run =
        let sent =
          sign_and_send_ok library vocab urls http now request row status before after run in
        let (s, is_json, same_id, is_pem, is_owner) =
          shown_for-Sent name row user json w found u request status before after sent is_row shown
            h in
        (
          s,
          sent.key,
          sent.signature,
          is_json,
          is_pem,
          is_owner ∙ sym same_id,
          subst (λ id. http.sign sent.key (library.url_string id) request ≡ ok sent.signature)
              (sym same_id) sent.is_signature,
          sent.is_answer,
        )
