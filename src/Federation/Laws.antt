-- ===== src/Federation/Laws.antt =====
-- What a post that succeeds has done.
use estrys.Common.{ℕ, String, ◌≡◌, subst, arith, [], ◌∷◌}
use estrys.Outcome.{ok, Action, pure, fail}
use estrys.Outcome.Inversion.{lifted_done, wrapped_done}
use estrys.Models.{Url, PrivateKey, User, Actor}
use estrys.Activity.{Message, VocabLibrary}
use estrys.Ports.{Library, UrlGenerator}
use estrys.Urls.{user_route}
use estrys.Federation.{
  Request, HttpLibrary, status_accepted, sign_and_send, round_trip, inbox_request, check_status,
  post_inbox,
}

-- The request was signed with the user's key, in the name of the user's own URL, and the transport
-- answered with the status.
pub record Sent {W : Type 0} (library : Library) (urls : UrlGenerator) (http : HttpLibrary W)
    (request : Request) (user : User) (status : ℕ) (w u : W) : Type 0 where
  pub key : PrivateKey
  pub is_key : library.parse_private_key user.private_key ≡ ok key
  pub key_id : Url
  pub is_key_id : urls.url user_route ("username" ∷ user.username ∷ []) ≡ ok key_id
  pub signature : String
  pub is_signature : http.sign key (library.url_string key_id) request ≡ ok signature
  pub is_answer : http.transport request signature w ≡ (ok status, u)

-- The activity was written as the body of a request for the actor's inbox, which was sent.
pub record Posted {W : Type 0} (library : Library) (vocab : VocabLibrary) (urls : UrlGenerator)
    (http : HttpLibrary W) (now : String) (to : Actor) (from : User) (act : Message) (w u : W)
    : Type 0 where
  pub url : Url
  pub is_url : library.parse_url to.url ≡ ok url
  pub serialized : String
  pub is_serialized : vocab.serialize_message act ≡ ok serialized
  pub body : String
  pub is_body : vocab.encode_message serialized ≡ ok body
  pub is_sent :
      Sent library urls http
        (inbox_request library vocab urls http now url from body)
        from
        status_accepted
        w
        u

module _ {W : Type 0} (library : Library) (vocab : VocabLibrary) (urls : UrlGenerator)
    (http : HttpLibrary W) (now : String) where
  pub sign_and_send_ok :
      (request : Request) (user : User) (status : ℕ) (w u : W)
      → sign_and_send library vocab urls http now request user w ≡ (ok status, u)
      → Sent library urls http request user status w u
  unfolding sign_and_send
  sign_and_send_ok request user status w u h =
      let (key, is_key, rest1) = lifted_done _ _ _ w h in
      let (key_id, is_key_id, rest2) = lifted_done _ _ _ w rest1 in
      let (signature, is_signature, rest3) = lifted_done _ _ _ w rest2 in
      record {
        key = key;
        is_key = is_key;
        key_id = key_id;
        is_key_id = is_key_id;
        signature = signature;
        is_signature = is_signature;
        is_answer = rest3;
      }

  check_status_ok :
      (status : ℕ) (w u : W)
      → check_status library vocab urls http now status w ≡ (ok tt, u)
      → (status ≡ status_accepted) × (w ≡ u)
  unfolding check_status pure fail
  check_status_ok status w u h = ground (arith, h)

  accepted-Sent :
      (request : Request) (user : User) (status : ℕ) (w v u : W)
      → check_status library vocab urls http now status v ≡ (ok tt, u)
      → Sent library urls http request user status w v
      → Sent library urls http request user status_accepted w u
  accepted-Sent request user status w v u h sent =
      let (accepted, same) = check_status_ok status v u h in
      subst (λ x. Sent library urls http request user status_accepted w x) same
        (subst (λ n. Sent library urls http request user n w v) accepted sent)

  -- Where the HTTP client answers a request with what its round tripper answers to it, a post succeeds
  -- only when the actor's URL is read, the activity is serialized, and the request for the actor's
  -- inbox with it as the body, signed with the key of the user that it comes from, was answered as
  -- accepted.
  pub post_inbox_success :
      (to : Actor) (from : User) (act : Message) (w u : W)
      → ((send : Request → Action W ℕ) (request : Request) (status : ℕ) (before after : W)
          → http.client_do send request before ≡ (ok status, after)
          → send request before ≡ (ok status, after))
      → post_inbox library vocab urls http now to from act w ≡ (ok tt, u)
      → Posted library vocab urls http now to from act w u
  unfolding post_inbox round_trip
  post_inbox_success to from act w u calls h =
      let (url, is_url, rest1) = lifted_done _ _ _ w h in
      let (serialized, is_serialized, rest2) = lifted_done _ _ _ w rest1 in
      let (body, is_body, rest3) = lifted_done _ _ _ w rest2 in
      let (_, _, rest4) = lifted_done _ _ _ w rest3 in
      let (status, v, third, rest5) = wrapped_done _ _ _ w rest4 in
      let request = inbox_request library vocab urls http now url from body in
      let run = calls (round_trip library vocab urls http now) request status w v third in
      let sent = sign_and_send_ok request from status w v run in
      record {
        url = url;
        is_url = is_url;
        serialized = serialized;
        is_serialized = is_serialized;
        body = body;
        is_body = is_body;
        is_sent = accepted-Sent request from status w v u rest5 sent;
      }
