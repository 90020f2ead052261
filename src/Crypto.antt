-- ===== src/Crypto.antt =====
-- internal/crypto/key_manager.go: the keys of remote actors are fetched and kept in an LRU cache. The
-- cache, the HTTP client, the encoders and decoders, and the generator of keys are parameters; logging
-- is left out.
pub mod Laws
pub mod RoundTrip
use estrys.Common.{String, Option, none, some}
use estrys.Outcome.{
  Error, Result, ok, err, panic, message, Action, pure, fail, crash, lift, wrapping, ◌>>=◌, ◌>>◌,
}
use estrys.Models.{PublicKey, PrivateKey}
use estrys.Ports.{KeyManager}

-- `http.NewRequestWithContext`, `client.Do` and `io.ReadAll`, with what a request and an answer are
pub record KeyServer (W : Type 0) : Type 1 where
  pub Request : Type 0
  pub Response : Type 0
  pub new_request : String → Result Request
  pub client_do : Request → Action W Response
  pub read_all : Response → Result String

-- `json.Unmarshal` into the PEM text of a key, `pem.Decode` and `x509.ParsePKIXPublicKey`
pub record KeyDecoder : Type 0 where
  pub key_pem : String → Result String
  pub pem_decode : String → Option String
  pub parse_public_key : String → Result PublicKey

-- `lru.Cache`
pub record LruCache (W : Type 0) : Type 0 where
  pub get : String → W → Option PublicKey × W
  pub add : String → PublicKey → W → W

-- `x509.MarshalPKIXPublicKey`, and `pem.EncodeToMemory` for a type and bytes
pub record KeyEncoder : Type 0 where
  pub marshal_public_key : PublicKey → Result String
  pub pem_encode : String → String → String

-- `FormatPubKey`
unfoldable pub format_pub_key : KeyEncoder → PublicKey → Result String
format_pub_key encoder key = elim (encoder.marshal_public_key key) [
  | ok bytes ↦ ok (encoder.pem_encode "PUBLIC KEY" bytes)
  | err e ↦ ok ""
  | panic why ↦ panic why
]

module _ {W : Type 0} (rsa_generate_key : Action W PrivateKey) where
  unfoldable pub generate_key : Action W PrivateKey
  generate_key = wrapping "rsa key generation failed" rsa_generate_key

module _ {W : Type 0} (server : KeyServer W) (decoder : KeyDecoder) (cache : LruCache W) where
  -- The request is nil after an error, and its header is set.
  unfoldable pub request_of : Result server.Request → Action W server.Request
  request_of (ok request) = pure request
  request_of _ = crash "nil pointer dereference"

  unfoldable pub decode_pem : String → Action W String
  decode_pem pem = elim (decoder.pem_decode pem) [
    | none ↦ fail (message "unable to decode key PEM")
    | some bytes ↦ pure bytes
  ]

  unfoldable pub add_key : String → PublicKey → Action W PublicKey
  add_key id key w = (ok key, cache.add id key w)

  -- `FetchKey` after a miss
  unfoldable pub request_key : String → Action W PublicKey
  request_key id = do
    request ← request_of (server.new_request id)
    response ← wrapping "error requesting user key" (server.client_do request)
    body ← wrapping "error while reading response body" (lift (server.read_all response))
    pem ← wrapping "unable to decode user json" (lift (decoder.key_pem body))
    bytes ← decode_pem pem
    key ← wrapping "unable to parse public key" (lift (decoder.parse_public_key bytes))
    add_key id key

  unfoldable pub cached_or : String → Option PublicKey → Action W PublicKey
  cached_or id (some key) = pure key
  cached_or id none = request_key id

  unfoldable pub fetch_key : String → Action W PublicKey
  fetch_key id w = let (key, u) = cache.get id w in cached_or id key u

module _ {W : Type 0} (rsa_generate_key : Action W PrivateKey) (server : KeyServer W)
    (decoder : KeyDecoder) (cache : LruCache W) where
  unfoldable pub new_key_manager : KeyManager W
  new_key_manager = record {
    generate_key = generate_key rsa_generate_key;
    fetch_key = fetch_key server decoder cache;
  }
