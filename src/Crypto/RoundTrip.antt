-- ===== src/Crypto/RoundTrip.antt =====
-- A key that a page shows is read back.
use estrys.Common.{String, none, some, ◌≡◌, refl, ◌∙◌}
use estrys.Outcome.{ok, pure, lift, wrapping, ◌>>=◌}
use estrys.Models.{PublicKey}
use estrys.Crypto.{
  KeyServer, KeyDecoder, KeyEncoder, LruCache, request_of, decode_pem, add_key, request_key,
  cached_or, fetch_key, format_pub_key,
}

-- The decoders undo the encoders.
pub record IsExact (encoder : KeyEncoder) (decoder : KeyDecoder) : Type 0 where
  pub pem_decode-encode :
      (kind bytes : String) → decoder.pem_decode (encoder.pem_encode kind bytes) ≡ some bytes
  pub parse-marshal :
      (key : PublicKey) (bytes : String)
      → encoder.marshal_public_key key ≡ ok bytes
      → decoder.parse_public_key bytes ≡ ok key

format_pub_key_ok :
    (encoder : KeyEncoder) (key : PublicKey) (bytes : String)
    → encoder.marshal_public_key key ≡ ok bytes
    → format_pub_key encoder key ≡ ok (encoder.pem_encode "PUBLIC KEY" bytes)
unfolding format_pub_key
format_pub_key_ok encoder key bytes h = rw (h, format_pub_key) refl

module _ {W : Type 0} (server : KeyServer W) (encoder : KeyEncoder) (decoder : KeyDecoder)
    (cache : LruCache W) (exact : IsExact encoder decoder) where
  -- Where the decoders undo the encoders, a key that is not in the cache and that the server shows as the
  -- program prints keys is the key that is fetched, and it is put into the cache.
  pub fetch_key-format_pub_key :
      (id : String) (key : PublicKey) (bytes body : String) (request : server.Request)
      (response : server.Response) (w missed u : W)
      → encoder.marshal_public_key key ≡ ok bytes
      → cache.get id w ≡ (none, missed)
      → server.new_request id ≡ ok request
      → server.client_do request missed ≡ (ok response, u)
      → server.read_all response ≡ ok body
      → decoder.key_pem body ≡ format_pub_key encoder key
      → fetch_key server decoder cache id w ≡ (ok key, cache.add id key u)
  unfolding fetch_key cached_or request_key request_of decode_pem add_key format_pub_key pure lift
      wrapping ◌>>=◌
  fetch_key-format_pub_key id key bytes body request response w missed u marshalled miss is_request
        is_response is_body shown =
      rw miss (
        rw is_request (
          rw is_response (
            rw is_body (
              rw (shown ∙ format_pub_key_ok encoder key bytes marshalled) (
                rw (exact.pem_decode-encode "PUBLIC KEY" bytes, decode_pem)
                  (rw (exact.parse-marshal key bytes marshalled) refl))))))
